-- ===== src/Lib.antt =====
-- Verification of the identity service, apps/services/identity-service. The service keeps users,
-- tenants, memberships, invitations, email verifications and refresh tokens. Its code is the domain
-- entities with their checks, one in-memory repository for each over a store that they share, and
-- the permission service. The six repositories meet in the store alone; PermissionService reads a
-- user and a membership and keeps no state. Paths below are under apps/services/identity-service.
--
-- Common         what the code uses of Python: `Result` for code that may raise, `Action` for code
--                that also reads and writes the store, dictionaries as association lists in the
--                order of insertion, sweeps of a loop over a dictionary, pairs of a collection
--                and its index (`IsIndexed`), and counts of rows (`HasCount`)
-- Exceptions     app/repositories/exceptions.py, with the messages, and the exceptions of Python and
--                pydantic that the code raises
-- Models         app/models/*.py and app/constants/roles.py: a record per entity; `validate` is its
--                constructor, with the validators in their order; Validity says what it accepts
-- Email          app/utils/email.py: `normalise_email`
-- Store          app/repositories/in_memory/store.py: `InMemoryIdentityStore`
-- Repositories   app/repositories/in_memory/*_repository.py, a module for each class with its
--                methods under their names; below it Consistency, the invariant of its collection
--                and indexes, and modules for what its methods do
-- Permissions    app/constants/permissions.py and app/services/permission_service.py
-- Settings       app/core/config.py: the fields and their defaults
-- Security       app/security/hashing.py: Hashing has its functions; Sha256, Utf8, Hex and Base64
--                write out what they call of the standard library
-- Protocols      app/repositories/*_repository.py: for each class the operations over any state,
--                the laws that docstrings and callers rely on, and in InMemory the in-memory
--                repository as an implementation
-- Flows          compositions of several parts: Login, Redemption of a token, Confirmation of an
--                address, and Sessions, where tokens are renewed: `create` of a successor, whose id
--                mark_rotated of the old token then needs; Leaves is about whole sequences of such
--                flows, and Race about requests whose calls interleave
-- Objects        the user repository with users as mutable objects, of app/models/base.py: Values
--                and Refinement relate it to the repository on values, Callers and Isolation are
--                about callers that change what they were given
-- History        runs of the service: any calls of mutating methods, in any order; Tokens, Logout,
--                Invitations, Verifications and Users follow a record through a run, Filed,
--                Listings, Privileges and Gating the indexes and a member; Events are the calls
--                that use something up, and Once is about them; Raises and Errors are about what
--                any one call raises
-- Tests          the theorems at small stores; Unit has unit tests of the service as runs
--
-- How the model corresponds to the code. A method is a function of its arguments and the store
-- that gives the new store and a value or an exception. A raise keeps what was written before it.
-- Every method that writes takes the lock for its whole body, and no method awaits anything else,
-- so the lock has no field, and a run of concurrent requests is a sequence of whole calls. The
-- code stores and returns deep copies, so records are values; Objects drops this for users.
-- `uuid4()` and `datetime.now()` are the arguments `id` and `now` of `create`, and that a drawn
-- UUID is new is a hypothesis. pydantic's `EmailStr` is the parameter `email_str`, which gives the
-- address that it makes of a text, or nothing where it refuses; some theorems ask that it leaves
-- its own output as it is (`IsStable`). Where a validator raises a ValueError, pydantic raises a
-- ValidationError over the input (`over_input`), of which the model keeps the texts. A UUID is a number, a text the list of its code points, a
-- datetime an instant or a naive reading, and comparing the two kinds raises. A set of UUIDs is a
-- list without repetition, walked in its order, where Python leaves the order open
-- (RefreshTokenRepository/Order is about that). `lower` is that of Python for code points below
-- 256 and leaves the others as they are. Loops run over lists, so nothing needs fuel.
--
-- argon2 is a parameter, a `PasswordHasher`; a theorem that needs more than its interface asks that
-- it is faithful (`IsFaithful`). The bytes that `secrets` draws are the argument `random`.
--
-- Not modelled: how pydantic-settings reads the environment; `from_attributes` and the refusal of
-- extra fields in app/models/base.py, since a record has the fields that it has; `repr` of
-- characters from 128 on, which stay as they are; the tests and scripts; and app/api, app/auth,
-- app/schemas, app/middleware, app/metrics, app/exceptions, app/main.py and the services other than
-- PermissionService, which are empty files.
pub mod Common
pub mod Exceptions
pub mod Models
pub mod Email
pub mod Store
pub mod Repositories
pub mod Permissions
pub mod Settings
pub mod Security
pub mod Protocols
pub mod Flows
pub mod Objects
pub mod History
pub mod Tests
