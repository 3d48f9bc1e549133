-- ===== src/Platform.antt =====
-- What the services take from outside the repository: strings and dates of ECMAScript, and the
-- database with its client (PostgreSQL under Prisma). They stand for any functions of their types.
use besterp.Prelude.{ℕ, Bool, Option}
use besterp.Text.{Text}
use besterp.Directory.{Directory}
use besterp.Run.{Thrown}

pub record Platform : Type 0 where
  pub to_upper_case : Text → Text
  -- `new Date(text).getTime()`, or none for an invalid date; and `toISOString`.
  pub date_parse : Text → Option ℕ
  pub to_iso_string : ℕ → Text
  -- The TypeError of a method called on a value that has none.
  pub type_error : Thrown
  -- The id that the client or `gen_random_uuid()` gives to a new row of the tables.
  pub random_uuid : Directory → Text
  -- The filters `contains` and `equals` in the mode "insensitive": the value, then the pattern.
  pub contains_insensitive : Text → Text → Bool
  pub equals_insensitive : Text → Text → Bool
  -- The ascending order of ids under the collation of the database.
  pub id_before : Text → Text → Bool
  -- The errors of a violated foreign key, of a `connect` to a missing row, and of a violated unique
  -- constraint on the fields named, and the constraint that an error's `meta` names.
  pub foreign_key_violation : Thrown
  pub connect_missing : Thrown
  pub unique_violation : Text → Thrown
  pub constraint_name : Thrown → Text
