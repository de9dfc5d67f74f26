-- ===== src/Graphql.antt =====
-- pkg/api/v2/graphql: the resolvers, and the errors that clients get.
pub mod TeaOfTheDay
pub mod Mutations
pub mod Queries
use tea_elephant_memory.Prelude.{ℕ, Option, none, some}
use tea_elephant_memory.Domain.{
  CommonError, collection_not_found, user_not_found, expired_token, invalid_token,
  qr_record_not_exist, jwt_incorrect, device_not_found, unauthorized, not_admin,
}
use tea_elephant_memory.Adapter as Adapter
use tea_elephant_memory.Adapter.{sentinel, wrapped}

-- What a resolver's call may fail with: a sentinel of package common, the storage's error, or another
-- package's.
pub data Cause : Type 0 where
  common : CommonError → Cause
  storage : Adapter.Error → Cause
  foreign : ℕ → Cause

-- The extension "code" of an error: one of two texts, or a GQLErrorCode.
pub data Code : Type 0 where
  unauthenticated : Code
  forbidden : Code
  numbered : ℕ → Code

-- errors.go: castGQLError; ErrNoTeas and ErrNoTeaCandidates reach the client as they are.
pub data GqlError : Type 0 where
  cast : Option Code → Cause → GqlError
  no_teas : GqlError
  no_tea_candidates : GqlError

-- errors.Is with the two sentinels of authentication, then the map of errors to codes.
abbrev pub code_of_common : CommonError → Option Code
code_of_common unauthorized = some unauthenticated
code_of_common not_admin = some forbidden
code_of_common qr_record_not_exist = some (numbered 0)
code_of_common expired_token = some (numbered 1)
code_of_common invalid_token = some (numbered 2)
code_of_common user_not_found = some (numbered 3)
code_of_common collection_not_found = some (numbered 4)
code_of_common device_not_found = some (numbered 5)
code_of_common jwt_incorrect = none

-- An error that wraps another is no key of the map.
abbrev pub code_of : Cause → Option Code
code_of (common e) = code_of_common e
code_of (storage (sentinel e)) = code_of_common e
code_of (storage (wrapped message e)) = none
code_of (foreign e) = none

abbrev pub cast_gql_error : Cause → GqlError
cast_gql_error cause = cast (code_of cause) cause
