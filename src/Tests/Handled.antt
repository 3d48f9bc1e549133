-- ===== src/Tests/Handled.antt =====
-- The theorems on the error handler at two database errors.
use besterp.Prelude.{◌≡◌, refl, false, some, []}
use besterp.Text.{lit}
use besterp.Value.{undefined}
use besterp.Run.{Thrown, quiet, throw}
use besterp.Tool.{Next}
use besterp.ErrorHandler.{handle_error, error_handler_middleware}
use besterp.ErrorHandler.Laws.{Handles, handle_error-secret, error_handler-Handles}
use besterp.PrismaErrors.{handle_transaction_error}
use besterp.PrismaErrors.Laws.{unique, told, handle_error-handle_transaction_error}
use besterp.Tests.Parties.{plain_env}
use besterp.Tests.{plain_lib, tables, create_party, agent_call, arguments}

abbrev unique_error : Thrown
unique_error = record {
  is_domain = false;
  code = some (lit "P2002");
  message = lit "Unique constraint failed on host db-1";
  suggested_tools = [];
  context = undefined;
  target = some (lit "name");
}

abbrev other_message : Thrown
other_message = record unique_error { message = lit "Unique constraint failed on host db-2" }

abbrev breaks : Next
breaks input context = throw unique_error

handle_error-secret_example :
    handle_error plain_lib create_party unique_error
    ≡ handle_error plain_lib create_party other_message
handle_error-secret_example =
    handle_error-secret plain_lib create_party unique_error other_message refl refl refl refl

error_handler-Handles_example :
    Handles plain_lib create_party
      (breaks arguments agent_call (quiet tables 5))
      (error_handler_middleware plain_lib arguments agent_call create_party breaks (quiet tables 5))
error_handler-Handles_example =
    error_handler-Handles plain_lib create_party arguments agent_call breaks (quiet tables 5)

handle_error-handle_transaction_error_example :
    (told (
        handle_error plain_lib create_party (
          handle_transaction_error plain_env
            (lit "create_party")
            (lit "search_parties")
            (lit "party")
            unique_error))
      ≡ some (lit "DUPLICATE_ENTITY"))
    × (told (handle_error plain_lib create_party unique_error) ≡ some (lit "DUPLICATE_ENTITY"))
handle_error-handle_transaction_error_example =
    handle_error-handle_transaction_error plain_lib create_party plain_env (lit "create_party")
      (lit "search_parties") (lit "party") unique_error (lit "P2002") (lit "DUPLICATE_ENTITY")
      unique refl refl
