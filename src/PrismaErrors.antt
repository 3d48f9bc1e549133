-- ===== src/PrismaErrors.antt =====
-- packages/shared/src/prisma-error-mapper.ts: what the client of the database throws becomes a domain
-- error, and the test for a further page. What is thrown is an `Error`.
pub mod Laws
use besterp.Prelude.{
  ℕ, Bool, false, ◌&&◌, ◌||◌, not, ◌+◌, List, [], ◌∷◌, ◌++◌, Option, none, some, ltb, leb, ◌==◌,
  if◌then◌else◌,
}
use besterp.Text.{Text, lit, text_eq, includes, between}
use besterp.Value.{Value, string}
use besterp.Run.{Thrown}
use besterp.Limits.{max_search_offset}
use besterp.Platform.{Platform}
use besterp.Errors.{
  context, invalid_type_value, duplicate_entity, entity_not_found, concurrency_conflict,
}

-- The numbers are natural, and so finite.
unfoldable pub compute_has_more : ℕ → ℕ → ℕ → Bool
compute_has_more offset limit total =
    if limit == 0
    then false
    else ltb (offset + limit) total && leb (offset + limit) max_search_offset

abbrev pub is_digit : ℕ → Bool
is_digit = between b'0' b'9'

-- /^P\d{4}$/.
unfoldable pub is_prisma_code : Text → Bool
is_prisma_code (p ∷ a ∷ b ∷ c ∷ d ∷ []) =
    p == b'P' && is_digit a && is_digit b && is_digit c && is_digit d
is_prisma_code _ = false

-- /^P1\d{3}$/, of a code of the first form.
unfoldable pub is_engine_code : Text → Bool
is_engine_code (p ∷ a ∷ rest) = a == b'1'
is_engine_code _ = false

abbrev pub caller_input_prisma_codes : List Text
caller_input_prisma_codes =
    lit "P2000"
    ∷ lit "P2011"
    ∷ lit "P2012"
    ∷ lit "P2014"
    ∷ lit "P2016"
    ∷ lit "P2017"
    ∷ lit "P2019"
    ∷ lit "P2020"
    ∷ []

abbrev pub missing_record_prisma_codes : List Text
missing_record_prisma_codes = lit "P2013" ∷ lit "P2018" ∷ []

prisma_context : Text → List (Text × Value) → Value
prisma_context code more = context ((lit "prismaCode", string code) ∷ more)

-- An empty target is no target (`resolveConflictField`).
abbrev conflict_subject : Option Text → Text
conflict_subject none = lit "unique key"
conflict_subject (some []) = lit "unique key"
conflict_subject (some (c ∷ target)) = c ∷ target

abbrev conflicting_field : Option Text → Text
conflicting_field none = lit "unknown"
conflicting_field (some []) = lit "unknown"
conflicting_field (some (c ∷ target)) = c ∷ target

unfoldable pub invalid_caller_input : Text → Text → Text → Thrown
unfolding prisma_context
invalid_caller_input code entity suggest =
    invalid_type_value
      (lit "Invalid "
        ++ entity
        ++ lit " input (Prisma "
        ++ code
        ++ lit "): the value does not satisfy the database constraint.")
      (suggest ∷ []) (prisma_context code [])

unfoldable pub missing_required_record : Text → Text → Text → Text → Thrown
unfolding prisma_context
missing_required_record code entity retry suggest =
    entity_not_found (entity ++ lit " not found for this operation (Prisma " ++ code ++ lit ").")
      (retry ∷ suggest ∷ []) (prisma_context code [])

unfoldable pub conflict_error : Option Text → Text → Text → Thrown
unfolding prisma_context
conflict_error target entity suggest =
    duplicate_entity
      (lit "A "
        ++ entity
        ++ lit " with the same "
        ++ conflict_subject target
        ++ lit " already exists in this tenant.")
      (suggest ∷ [])
      (prisma_context (lit "P2002")
        ((lit "conflictingField", string (conflicting_field target)) ∷ []))

unfoldable pub reference_error : Text → Text → Text → Thrown
unfolding prisma_context
reference_error constraint entity suggest =
    invalid_type_value
      (lit "Referenced " ++ entity ++ lit " does not exist (constraint: " ++ constraint ++ lit ").")
      (suggest ∷ []) (prisma_context (lit "P2003") ((lit "constraint", string constraint) ∷ []))

unfoldable pub missing_error : Text → Text → Text → Thrown
unfolding prisma_context
missing_error entity retry suggest =
    entity_not_found (entity ++ lit " not found for this operation.") (retry ∷ suggest ∷ [])
      (prisma_context (lit "P2025") [])

unfoldable pub retry_error : Text → Text → Text → Thrown
unfolding prisma_context
retry_error code entity retry =
    concurrency_conflict
      (lit "Transaction conflict or timeout on " ++ entity ++ lit " — please retry.") (retry ∷ [])
      (prisma_context code [])

module _ (env : Platform) where
  -- A code that is none of these leaves the error as it is.
  unfoldable pub map_prisma_error : Text → Text → Text → Text → Thrown → Thrown
  map_prisma_error code retry suggest entity e =
      if includes code caller_input_prisma_codes
      then invalid_caller_input code entity suggest
      else if includes code missing_record_prisma_codes
      then missing_required_record code entity retry suggest
      else if text_eq code (lit "P2002")
      then conflict_error e.target entity suggest
      else if text_eq code (lit "P2003")
      then reference_error (env.constraint_name e) entity suggest
      else if text_eq code (lit "P2025")
      then missing_error entity retry suggest
      else if text_eq code (lit "P2028") || text_eq code (lit "P2034")
      then retry_error code entity retry
      else e

  unfoldable pub map_code : Option Text → Text → Text → Text → Thrown → Thrown
  unfolding map_prisma_error
  map_code none retry suggest entity e = e
  map_code (some code) retry suggest entity e =
      if not (is_prisma_code code)
      then e
      else if is_engine_code code
      then e
      else map_prisma_error code retry suggest entity e

  -- What a failed operation throws in the end: the retry tool, the suggested tool, the entity.
  unfoldable pub handle_transaction_error : Text → Text → Text → Thrown → Thrown
  unfolding map_code
  handle_transaction_error retry suggest entity e = map_code e.code retry suggest entity e
