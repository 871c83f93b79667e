-- ===== src/Flows/Redemption.antt =====
-- A refresh token is issued under the hash of its text, and redeemed by the text: create and
-- get_by_token_hash of a repository that keeps the protocol, with hash_token.
use flowtona.Common.{◌≡◌, ◌↔◌, ◌⊎◌, Text, Option, none, some, arith, DateTime, ok, ==_refl, nat_eq}
use flowtona.Exceptions.{Uuid}
use flowtona.Models.RefreshToken.{RefreshTokenRecord}
use flowtona.Security.Hashing.{hash_token}
use flowtona.Security.Hashing.Tokens.{hash_token_iff, Collide}
use flowtona.Protocols.RefreshTokens.{Operations, MeetsProtocol}

module _ {S : Type 0} (o : Operations S) (IsGood : S → Type 0)
    (row : Uuid → S → Option RefreshTokenRecord) (meets : MeetsProtocol o IsGood row) where
  -- Whatever repository keeps the protocol: after a token is created under the hash of its text and a new UUID, a text finds the new token exactly if it is that text, or SHA-256 has the same digest for the different messages of the two.
  pub redeem_after_issue :
      (s s' : S) (user tenant family : Uuid) (text h other h' : Text) (expires : DateTime)
      (id : Uuid) (now : DateTime) (t : RefreshTokenRecord)
      → IsGood s
      → row id s ≡ none
      → hash_token text ≡ ok h
      → hash_token other ≡ ok h'
      → o.create user tenant family h expires id now s ≡ (ok t, s')
      → (o.get_by_token_hash h' s' ≡ ok (some t)) ↔ ((text ≡ other) ⊎ Collide text other)
  redeem_after_issue s s' user tenant family text h other h' expires id now t good new hashed
        hashed' run =
      let (made, good', rows) =
        meets.creates s s' user tenant family h expires id now t good new run in
      let (finds, found) = meets.finds s' h' t good' in
      let (apart, alike) = hash_token_iff text other h h' hashed hashed' in
      (
        λ at. apart (ground (arith, made, (finds at).1)),
        λ how. found (ground (arith, made, rows t.id, ==_refl id), ground (arith, made, alike how)),
      )
