-- ===== src/Tests/Flows.antt =====
-- The protocols and the flows, at the in-memory repositories.
use flowtona.Common.{
  ◌≡◌, ◌↔◌, ◌⊎◌, refl, Text, true, some, List, [], ◌∷◌, ok, err, aware, ◌==◌, list_eq, nat_eq,
  if◌then◌else◌,
}
use flowtona.Email.{normalise_email}
use flowtona.Models.User
use flowtona.Models.User.{User}
use flowtona.Models.Membership
use flowtona.Models.Membership.{TenantMembership, technician, owner}
use flowtona.Models.Invitation
use flowtona.Models.Invitation.{Invitation}
use flowtona.Store.{Store}
use flowtona.Repositories.UserRepository
use flowtona.Repositories.UserRepository.Consistency as Users
use flowtona.Repositories.InvitationRepository.Consistency as Invitations
use flowtona.Repositories.RefreshTokenRepository
use flowtona.Repositories.RefreshTokenRepository.Consistency as Tokens
use flowtona.Protocols.Users.{KeepsUsers}
use flowtona.Protocols.Users.InMemory.{in_memory_users, in_memory-KeepsUsers}
use flowtona.Protocols.Invitations.{KeepsInvitations}
use flowtona.Protocols.Invitations.InMemory.{
  in_memory_invitations, invitation_of, in_memory-KeepsInvitations,
}
use flowtona.Protocols.RefreshTokens.InMemory.{in_memory, row_of, in_memory-MeetsProtocol}
use flowtona.Security.Hashing.{PasswordHasher, verified, mismatch, verify_password}
use flowtona.Permissions.{Permission, has_permission}
use flowtona.Permissions.Policy.{MayUse}
use flowtona.Security.Hashing.Tokens.{Collide}
use flowtona.Flows.Redemption.{redeem_after_issue}
use flowtona.Flows.Login.{IsFaithful, login_after_signup}
use flowtona.Flows.Confirmation.{confirmation_unlocks}
use flowtona.Tests.Stores.{
  accepts, accepts-IsStable, plain_a, plain_b, first_hash, full, full-IsSound,
}
use flowtona.Tests.Hashing.{abc, abd, abc_hash, abd_hash, hash_abc, hash_abd}

in_memory-KeepsUsers_example : KeepsUsers (in_memory_users accepts) (Users.IsConsistent accepts)
in_memory-KeepsUsers_example = in_memory-KeepsUsers accepts

in_memory-KeepsInvitations_example :
    KeepsInvitations
      (in_memory_invitations accepts)
      (Invitations.IsConsistent accepts)
      invitation_of
      (λ e. accepts (normalise_email e))
in_memory-KeepsInvitations_example = in_memory-KeepsInvitations accepts accepts-IsStable

abbrev joined : TenantMembership
joined = Membership.fresh 9 1 3 technician (aware 4)

abbrev invited : Invitation
invited = Invitation.fresh 5 2 plain_b owner first_hash 1 (aware 0) (aware 50)

-- A hasher that keeps the password as it is, which is faithful.
abbrev plain_hasher : PasswordHasher
plain_hasher = record {
  hash = λ password salt. password;
  verify = λ password_hash password. if password == password_hash then verified else mismatch;
}

abbrev bob : User
bob = User.fresh 9 plain_b abc [] (aware 3)

abbrev with_bob : Store
with_bob = (UserRepository.create accepts plain_b abc [] 9 (aware 3) full).1

abbrev issued : Store
issued = (RefreshTokenRepository.create 1 2 3 abc_hash (aware 100) 9 (aware 2) full).1

redeem_after_issue_example :
    (in_memory.get_by_token_hash abd_hash issued
      ≡ ok (some (Tokens.issued 1 2 3 abc_hash (aware 100) 9 (aware 2))))
    ↔ ((abc ≡ abd) ⊎ Collide abc abd)
unfolding flowtona.Common.lookup RefreshTokenRepository.create flowtona.Common.list_beq
    flowtona.Security.Hex.hex flowtona.Security.Sha256.sha256 flowtona.Models.RefreshToken.validate
redeem_after_issue_example =
    redeem_after_issue in_memory Tokens.IsConsistent row_of in_memory-MeetsProtocol full issued 1 2
      3 abc abc_hash abd abd_hash (aware 100) 9 (aware 2)
      (Tokens.issued 1 2 3 abc_hash (aware 100) 9 (aware 2)) full-IsSound.tokens refl hash_abc
      hash_abd refl

abbrev ann : User
ann = User.fresh 1 plain_a [] [] (aware 0)

abbrev ann_confirmed : User
ann_confirmed = record ann { email_verified = true }

plain_hasher-IsFaithful : IsFaithful plain_hasher
plain_hasher-IsFaithful password salt candidate = refl

login_after_signup_example :
    (UserRepository.get_by_email plain_b with_bob ≡ ok (some bob))
    × (verify_password plain_hasher abd bob.password_hash ≡ ok (abd == abc))
unfolding UserRepository.create flowtona.Common.lookup flowtona.Common.list_beq normalise_email
    User.validate flowtona.Security.Hashing.hash_password
login_after_signup_example =
    login_after_signup accepts plain_hasher plain_b abc [] [] 9 (aware 3) full with_bob bob plain_b
      abd plain_hasher-IsFaithful full-IsSound.users refl refl refl

confirmation_unlocks_example :
    (s' : Store) × (UserRepository.update ann_confirmed full ≡ (ok ann_confirmed, s'))
    × (UserRepository.get_by_email plain_a s' ≡ ok (some ann_confirmed))
    × ((p : Permission)
        → (has_permission ann_confirmed (Membership.fresh 4 1 2 owner (aware 0)) p ≡ ok true)
          ↔ MayUse owner p)
unfolding flowtona.Common.lookup UserRepository.get_by_email flowtona.Common.list_beq
    normalise_email
confirmation_unlocks_example =
    confirmation_unlocks (in_memory_users accepts) (Users.IsConsistent accepts) full plain_a ann
      (Membership.fresh 4 1 2 owner (aware 0)) (in_memory-KeepsUsers accepts) full-IsSound.users
      refl refl refl
