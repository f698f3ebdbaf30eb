-- ===== src/Webapp/Transactions.antt =====
-- The states of a transaction, as @usedapp/core gives them to the pages, and the alert that the pages
-- show for them (state/slices/application.ts).
use theword_monorepo.Prelude.{String, Bool, true, Option, none, some, str_eq, if◌then◌else◌}

pub data TransactionState : Type 0 where
  idle : TransactionState
  pending_signature : TransactionState
  mining : TransactionState
  success : TransactionState
  fail : TransactionState
  exception : TransactionState

pub record TransactionStatus : Type 0 where
  pub status : TransactionState
  pub error_message : Option String

pub record AlertModal : Type 0 where
  pub show : Bool
  pub title : String
  pub message : String

abbrev pub alert : String → String → AlertModal
alert title message = record { show = true; title = title; message = message }

-- `text || other`
abbrev pub or_text : Option String → String → String
or_text none other = other
or_text (some text) other = if str_eq text "" then other else text

abbrev pub try_again : String
try_again = "Please try again."
