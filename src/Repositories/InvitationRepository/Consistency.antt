-- ===== src/Repositories/InvitationRepository/Consistency.antt =====
-- The invitations and their hash index, kept together; what `create` does.
use flowtona.Common.{
  Text, ◌≡◌, refl, ◌⊎◌, inl, inr, Option, none, some, arith, DateTime, lookup, insert, contains,
  lookup-insert, Result, if◌then◌else◌, ok, err, Result-cases, Bool-cases, nat_eq, list_eq,
  IsIndexed, add-IsIndexed, empty-IsIndexed,
}
use flowtona.Exceptions.{Uuid, Error, duplicate_entry}
use flowtona.Email.{normalise_email, IsStable}
use flowtona.Models.Membership.{Role}
use flowtona.Models.Invitation.{Invitation, validate, fresh}
use flowtona.Models.Invitation.Validity.{validate_invitation_iff}
use flowtona.Store.{Store, empty}
use flowtona.Repositories.InvitationRepository.{create}

abbrev pub id_of : Invitation → Uuid
id_of v = v.id

abbrev pub OwnsHash : Text → Invitation → Type 0
OwnsHash h v = h ≡ v.token_hash

-- What a successful `create` writes.
abbrev pub added : Invitation → Store → Store
added v s = record s {
  invitations_by_id = insert v.id v s.invitations_by_id;
  invitation_id_by_token_hash = insert v.token_hash v.id s.invitation_id_by_token_hash;
}

module _ (email_str : Text → Option Text) where
  abbrev pub IsStorable : Invitation → Type 0
  IsStorable v = validate email_str v ≡ ok v

  pub record IsConsistent (s : Store) : Type 0 where
    pub indexed : IsIndexed id_of OwnsHash s.invitations_by_id s.invitation_id_by_token_hash
    pub storable :
        (k : Uuid) (v : Invitation) → lookup k s.invitations_by_id ≡ some v → IsStorable v

  pub empty-IsConsistent : IsConsistent empty
  unfolding lookup
  empty-IsConsistent = record {
    indexed = empty-IsIndexed id_of OwnsHash;
    storable = λ k v h. absurd (ground arith);
  }

  module _ (tenant_id : Uuid) (email : Text) (role : Role) (token_hash : Text) (invited_by : Uuid)
      (expires_at : DateTime) (id : Uuid) (now : DateTime) where
    abbrev pub issued : Text → Invitation
    issued address = fresh id tenant_id address role token_hash invited_by now expires_at

    -- What `create` answers, by whether the hash is taken and what the constructor says.
    abbrev pub answer : Store → Result Error Invitation
    answer s =
        if contains token_hash s.invitation_id_by_token_hash
        then err (duplicate_entry "invitation" "token_hash")
        else validate email_str (issued (normalise_email email))

    -- `create` raises a duplicate if the hash is taken, and else what the constructor raises for the normalised address, in both cases changing nothing; otherwise it stores the record that the constructor returned under its id and indexes it by its hash.
    pub create_invitation_lem :
        (s : Store)
        → create email_str tenant_id email role token_hash invited_by expires_at id now s
          ≡ (answer s, elim (answer s) [ ok v ↦ added v s | err e ↦ s ])
    unfolding create
    create_invitation_lem s =
        elim (Bool-cases (contains token_hash s.invitation_id_by_token_hash)) [
          | inl taken ↦ ground arith
          | inr free ↦ elim (Result-cases (validate email_str (issued (normalise_email email)))) [
            | inl (e, refused) ↦ ground arith
            | inr (v, accepted) ↦ ground (
              arith,
              (validate_invitation_iff email_str (issued (normalise_email email)) v).0 accepted,
            )
          ]
        ]

    module _ (stable : IsStable email_str) where
      -- `create` raises and changes nothing, or stores the fresh record under a hash that was free.
      pub create_outcomes :
          (s : Store)
          → ((e : Error) × (create email_str tenant_id email role token_hash invited_by expires_at
                  id now s
                ≡ (err e, s)))
            ⊎ ((a : Text) × (email_str (normalise_email email) ≡ some a)
                × (create email_str tenant_id email role token_hash invited_by expires_at id now s
                    ≡ (ok (issued a), added (issued a) s))
                × (lookup token_hash s.invitation_id_by_token_hash ≡ none)
                × IsStorable (issued a))
      unfolding create
      create_outcomes s = elim (Bool-cases (contains token_hash s.invitation_id_by_token_hash)) [
        | inl taken ↦ inl (duplicate_entry "invitation" "token_hash", ground arith)
        | inr free ↦ elim (Result-cases (validate email_str (issued (normalise_email email)))) [
          | inl (e, refused) ↦ inl (e, ground arith)
          | inr (v, accepted) ↦
              let (address, same, fits) =
                (validate_invitation_iff email_str (issued (normalise_email email)) v).0 accepted in
              inr (
                v.email,
                address,
                ground arith,
                ground arith,
                ground (
                  arith,
                  stable (normalise_email email) v.email address,
                  (validate_invitation_iff email_str (issued v.email) (issued v.email)).1,
                ),
              )
        ]
      ]

      -- `create` keeps the store consistent if the UUID that it draws is new.
      pub create-IsConsistent :
          (s : Store)
          → lookup id s.invitations_by_id ≡ none
          → IsConsistent s
          → IsConsistent
              (create email_str tenant_id email role token_hash invited_by expires_at id now s).1
      create-IsConsistent s new_id c = elim (create_outcomes s) [
        | inl (e, run) ↦ rw run c
        | inr (a, _, run, new_hash, valid) ↦ rw run (record {
          indexed =
              add-IsIndexed id_of OwnsHash token_hash (issued a) s.invitations_by_id
                s.invitation_id_by_token_hash new_id new_hash refl c.indexed;
          storable = λ k v found.
              ground (arith, lookup-insert k id (issued a) s.invitations_by_id, c.storable k v);
        })
      ]

  -- The invariant reads two fields alone.
  pub frame-IsConsistent :
      {s s' : Store}
      → s'.invitations_by_id ≡ s.invitations_by_id
      → s'.invitation_id_by_token_hash ≡ s.invitation_id_by_token_hash
      → IsConsistent s
      → IsConsistent s'
  frame-IsConsistent p q c = record { indexed = rw (p, q) c.indexed; storable = rw p c.storable }
