-- ===== src/Shell/Stages.antt =====
-- StdOutStdErrEmulationProtocol (cowrie/src/cowrie/shell/honeypot.py): the commands of a pipeline. An object of the class
-- is known only to `protocol.pp` and to the `next_command` of the one before it, so that a chain of them is a list.
use honeybee_potstore.Base.{Bool, List, [], ◌∷◌, ◌++◌, Option, none, some, if◌then◌else◌}
use honeybee_potstore.Base.Text.{Text, Bytes}

pub record Stage (C : Type 0) : Type 0 where
  pub cmd : C
  pub cmdargs : List Text
  pub input_data : Option Bytes
  pub last_data : Bytes
  pub redirected_data : Bytes
  pub err_data : Bytes
  pub redirect : Bool

-- What a command writes, in order.
pub data Write : Type 0 where
  to_out to_err : Bytes → Write

abbrev pub more_input : Bytes → Option Bytes → Option Bytes
more_input d none = some d
more_input d (some bs) = some (bs ++ d)

module _ {C : Type 0} where
  unfoldable pub new_stage : C → List Text → Bool → Stage C
  new_stage cmd cmdargs redirect = record {
    cmd = cmd;
    cmdargs = cmdargs;
    input_data = none;
    last_data = [];
    redirected_data = [];
    err_data = [];
    redirect = redirect;
  }

  -- `outReceived` of the first object of a chain, with what goes to the terminal.
  unfoldable pub out_received : Bytes → List (Stage C) → List (Stage C) × List Bytes
  out_received d [] = ([], [])
  out_received d (s ∷ []) =
      if s.redirect
      then (record s { last_data = d; redirected_data = s.redirected_data ++ d } ∷ [], [])
      else (record s { last_data = d } ∷ [], d ∷ [])
  out_received d (s ∷ n ∷ rest) =
      (record s { last_data = d } ∷ record n { input_data = more_input d n.input_data } ∷ rest, [])

  unfoldable pub err_received : Bytes → List (Stage C) → List (Stage C) × List Bytes
  err_received d [] = ([], [])
  err_received d (s ∷ rest) = (record s { err_data = s.err_data ++ d } ∷ rest, d ∷ [])

  abbrev pub received : Write → List (Stage C) → List (Stage C) × List Bytes
  received (to_out d) chain = out_received d chain
  received (to_err d) chain = err_received d chain

  -- The writes of one command, each to the first object.
  unfoldable pub receive_all : List Write → List (Stage C) → List (Stage C) × List Bytes
  receive_all [] chain = (chain, [])
  receive_all (w ∷ ws) chain =
      let first = received w chain in
      let rest = receive_all ws first.0 in (rest.0, first.1 ++ rest.1)

  -- `insert_command`
  unfoldable pub insert_command : Stage C → List (Stage C) → List (Stage C)
  insert_command command [] = []
  insert_command command (s ∷ rest) = s ∷ command ∷ rest
