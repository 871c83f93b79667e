-- ===== src/History/Lives.antt =====
-- Records under their ids from one store to a later one, by what can become of a record.
use flowtona.Common.{
  ◌≡◌, inl, inr, some, arith, Dict, lookup, insert, lookup-insert, Bool-cases, ◌==◌, ==_iff, nat_eq,
}
use flowtona.Exceptions.{Uuid}

module _ {V : Type 0} (Becomes : V → V → Type 0) where
  -- Every record of `d` is still in `d'`, as what can become of it.
  abbrev pub AllKept : Dict Uuid V → Dict Uuid V → Type 0
  AllKept d d' =
      (k : Uuid) (v : V) → lookup k d ≡ some v → (w : V) × (lookup k d' ≡ some w) × Becomes v w

  pub AllKept-trans :
      (d e f : Dict Uuid V)
      → ((u v w : V) → Becomes u v → Becomes v w → Becomes u w)
      → AllKept d e
      → AllKept e f
      → AllKept d f
  AllKept-trans d e f trans first second k u found =
      let (v, there, a) = first k u found in
      let (w, at_last, b) = second k v there in (w, at_last, trans u v w a b)

  module _ (stays : (v : V) → Becomes v v) where
    pub AllKept-same : {d d' : Dict Uuid V} → d' ≡ d → AllKept d d'
    AllKept-same same k v found = (v, rw same found, stays v)

    pub AllKept-insert :
        (d : Dict Uuid V) (i : Uuid) (w : V)
        → ((v : V) → lookup i d ≡ some v → Becomes v w)
        → AllKept d (insert i w d)
    AllKept-insert d i w becomes k v found = elim (Bool-cases (i == k)) [
      | inl same ↦
          (w, ground (arith, lookup-insert k i w d), becomes v (ground (arith, ==_iff i k)))
      | inr other ↦ (v, ground (arith, lookup-insert k i w d), stays v)
    ]
