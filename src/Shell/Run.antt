-- ===== src/Shell/Run.antt =====
-- runCommand, resume and call_command (cowrie/src/cowrie/shell/honeypot.py and protocol.py), for one shell and commands
-- that have ended when `call` returns. What a command does to the honeypot and writes, the look-up of
-- commands and the prompt are parameters.
use honeybee_potstore.Base.{
  ℕ, zero, suc, Bool, true, false, List, [], ◌∷◌, ◌++◌, ◌&&◌, Option, none, some, Result, ok, err,
  key_error, attribute_error, recursion_error, if◌then◌else◌, map,
}
use honeybee_potstore.Base.Text.{Text, Bytes, codes}
use honeybee_potstore.Base.Dict.{lookup, text_keys}
use honeybee_potstore.Auth.Strings.{split}
use honeybee_potstore.Wire.Utf8.{encode}
use honeybee_potstore.Shell.Words.{Environ, assignments, Cmd, cmd_array}
use honeybee_potstore.Shell.Stages.{Stage, new_stage, Write, receive_all}

-- The fields of the shell that stay as they are, and what runCommand asks of the protocol.
pub record Shell : Type 0 where
  pub interactive : Bool
  pub redirect : Bool
  pub environ : Environ
  -- `isinstance(protocol, HoneyPotExecProtocol)`, and `len(cmdstack) == 1`
  pub exec : Bool
  pub alone : Bool

pub data Event : Type 0 where
  wrote : Bytes → Event
  ended : Event

-- `S` is the rest of the honeypot, which commands change.
pub record World (C S : Type 0) : Type 0 where
  pub cmdpending : List (List Text)
  pub pp : List (Stage C)
  pub machine : S
  pub events : List Event

abbrev pub Step : Type 0 → Type 0 → Type 0
Step C S = World C S → Result (Unit {0}) × World C S

-- The classes of the commands, `call`, the look-up of a command, and the prompt or what it raises.
pub record Outside (C S : Type 0) : Type 0 where
  pub call : C → List Text → Option Bytes → S → List Write × S
  pub get_command : Text → List Text → S → Option C
  pub prompt : S → Result Bytes

pub data Prepared (C : Type 0) : Type 0 where
  missing : (name : Text) → Prepared C
  ready : List (Stage C) → Prepared C

-- What runs on: the shell's next command, or a pipeline.
pub data Call (C : Type 0) : Type 0 where
  run_command : Call C
  call_command : (chain : List (Stage C)) → Call C

infixl 5 ◌>>=◌
abbrev pub ◌>>=◌ :
    {C S : Type 0} → Result (Unit {0}) × World C S → Step C S → Result (Unit {0}) × World C S
(err e, w) >>= next = (err e, w)
(ok u, w) >>= next = next w

abbrev pub is_empty : {A : Type 0} → List A → Bool
is_empty [] = true
is_empty (x ∷ xs) = false

module _ {C S : Type 0} (sh : Shell) (o : Outside C S) where
  abbrev pub emit : List Event → World C S → World C S
  emit es w = record w { events = w.events ++ es }

  abbrev pub prompted : Result Bytes → Step C S
  prompted (err e) w = (err e, w)
  prompted (ok p) w = (ok tt, emit (wrote p ∷ []) w)

  -- `showPrompt`
  unfoldable pub show_prompt : Step C S
  show_prompt w = if sh.interactive then prompted (o.prompt w.machine) w else (ok tt, w)

  abbrev pub onto_chain : Text → List Text → Option C → List (Stage C) → Prepared C
  onto_chain name rargs none chain = missing name
  onto_chain name rargs (some c) chain = ready (new_stage c rargs sh.redirect ∷ chain)

  -- The loop over the reversed array: the first command from the right that is not found ends it.
  unfoldable pub prepare : List Text → S → List Cmd → Prepared C
  unfolding new_stage
  prepare paths m [] = ready []
  prepare paths m (c ∷ cs) = elim (prepare paths m cs) [
    | missing name ↦ missing name
    | ready chain ↦ onto_chain c.command c.rargs (o.get_command c.command paths m) chain
  ]

  -- `runOrPrompt`
  abbrev pub run_or_prompt : (Call C → Step C S) → Step C S
  run_or_prompt again w = if is_empty w.cmdpending then show_prompt w else again run_command w

  abbrev pub not_found : Text → Text
  not_found name = codes "-bash: " ++ name ++ codes ": command not found" ++ 10 ∷ []

  -- `processEnded` of an exec protocol with nothing left to do.
  abbrev pub end_exec : World C S → World C S
  end_exec w = if sh.exec && is_empty w.cmdpending then emit (ended ∷ []) w else w

  abbrev pub start_chain : (Call C → Step C S) → Prepared C → Step C S
  start_chain again (missing name) w =
      run_or_prompt again (end_exec (emit (wrote (encode (not_found name)) ∷ []) w))
  start_chain again (ready chain) w = again (call_command chain) w

  -- `environ["PATH"].split(":")`
  abbrev pub with_path : (Call C → Step C S) → List Cmd → Option Text → Step C S
  with_path again cmds none w = (err key_error, w)
  with_path again cmds (some path) w = start_chain again (prepare (split 58 path) w.machine cmds) w

  -- The command of a popped list, after its assignments.
  abbrev pub run_words : (Call C → Step C S) → Environ × List Text → Step C S
  run_words again (env, []) w = run_or_prompt again w
  run_words again (env, [] ∷ ws) w = run_or_prompt again w
  run_words again (env, (c ∷ name) ∷ ws) w =
      with_path again (cmd_array (c ∷ name) ws) (lookup (codes "PATH") env) w

  -- Nothing is pending: a prompt, if no piped command is still to come.
  abbrev pub idle : List (Stage C) → Step C S
  idle [] w = (err attribute_error, w)
  idle (s ∷ []) w =
      if sh.interactive then show_prompt w else (ok tt, if sh.alone then emit (ended ∷ []) w else w)
  idle (s ∷ n ∷ rest) w = (ok tt, w)

  abbrev pub next_pending : (Call C → Step C S) → List (List Text) → Step C S
  next_pending again [] w = idle w.pp w
  next_pending again (words ∷ rest) w =
      run_words again (assignments sh.environ words) (record w { cmdpending = rest })

  -- `outConnectionLost` of the object that `pp` then is.
  abbrev pub after_first : (Call C → Step C S) → List (Stage C) → Step C S
  after_first again [] w = (ok tt, w)
  after_first again (s ∷ []) w = (ok tt, w)
  after_first again (s ∷ n ∷ rest) w = again (call_command (n ∷ rest)) w

  unfoldable pub out_connection_lost : (Call C → Step C S) → Step C S
  out_connection_lost again w = after_first again w.pp w

  -- The first command of a chain runs, and writes.
  unfoldable pub run_first : List (Stage C) → World C S → World C S
  unfolding receive_all
  run_first [] w = record w { pp = [] }
  run_first (s ∷ rest) w =
      let called = o.call s.cmd s.cmdargs s.input_data w.machine in
      let got = receive_all called.0 (s ∷ rest) in
      record w { pp = got.0; machine = called.1; events = w.events ++ map wrote got.1 }

  -- `exit` resumes the shell, which runs the next pending command; only then comes the next of the chain.
  unfoldable pub call_chain : (Call C → Step C S) → List (Stage C) → Step C S
  unfolding out_connection_lost run_first
  call_chain again chain w = again run_command (run_first chain w) >>= out_connection_lost again

  unfoldable pub run_next : (Call C → Step C S) → Step C S
  unfolding show_prompt prepare
  run_next again w = next_pending again w.cmdpending w

  abbrev pub perform_call : (Call C → Step C S) → Call C → Step C S
  perform_call again run_command w = run_next again w
  perform_call again (call_command chain) w = call_chain again chain w

  -- The first argument is how deep Python lets these calls nest.
  unfoldable pub perform : ℕ → Call C → Step C S
  unfolding run_next call_chain
  perform zero c w = (err recursion_error, w)
  perform (suc n) c w = perform_call (perform n) c w
