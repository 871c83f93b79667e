-- ===== src/Tests/Errors.antt =====
-- The exceptions of `mark_rotated` and their messages, and the settings of the password hasher.
use Prim.Native.Nat.{◌*◌, ◌≤◌}
use flowtona.Common.{
  codes, ◌≡◌, refl, arith, ◌⊎◌, Text, Option, none, some, List, [], ◌∷◌, ◌++◌, ok, err, aware,
}
use flowtona.Exceptions.{
  Uuid, Error, record_not_found, concurrent_update, duplicate_entry, by_uuid, by_text,
}
use flowtona.Exceptions.Messages.{message}
use flowtona.Settings.{defaults}
use flowtona.Repositories.RefreshTokenRepository.{mark_rotated}
use flowtona.History.Raises.{Raises, IsPlain}
use flowtona.History.Errors.{TellsHash, Raises_lem}
use flowtona.Tests.Stores.{accepts, full, full-IsSound}

abbrev unknown_hash : Text
unknown_hash = 106 ∷ []

abbrev unknown : Error
unknown = record_not_found "refresh_token" (by_text unknown_hash)

Raises_lem_example : IsPlain unknown ⊎ TellsHash full unknown
unfolding mark_rotated flowtona.Common.lookup flowtona.Common.list_beq
Raises_lem_example =
    Raises_lem accepts full unknown full-IsSound (Raises.mark_rotated unknown_hash 9 (aware 5) refl)

duplicate_message :
    message (duplicate_entry "user" "email") ≡ some (codes "duplicate user for field 'email'")
unfolding flowtona.Exceptions.Messages.repr
duplicate_message = refl

conflict_message :
    message (concurrent_update "invitation" (by_uuid 5) (some "pending") none)
    ≡ some (
        codes
          "invitation 00000000-0000-0000-0000-000000000005 was not in the expected state (expected='pending', actual=None)")
unfolding flowtona.Exceptions.Messages.str_uuid flowtona.Security.Hex.hex
    flowtona.Exceptions.Messages.repr
conflict_message = refl

-- argon2 wants eight KiB for each lane.
memory_for_lanes : 8 * defaults.argon2_parallelism ≤ defaults.argon2_memory_cost_kib
memory_for_lanes = omega arith
