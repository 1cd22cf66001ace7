-- ===== src/Shell/Pipeline.antt =====
-- What a pipeline of the shell does (cowrie/src/cowrie/shell/honeypot.py and protocol.py), against an independent account of it.
use honeybee_potstore.Base.{
  ℕ, zero, suc, ◌≤◌, Bool, true, false, List, [], ◌∷◌, ◌++◌, ◌≡◌, refl, ap, ◌∙◌, Option, none,
  Result, ok, err, arith, length, map, if◌then◌else◌, Bool-cases, inl, inr,
}
use mathlib.Core.List.{append_assoc}
use honeybee_potstore.Base.Text.{Text, Bytes}
use honeybee_potstore.Shell.Stages.{
  Stage, new_stage, Write, to_out, to_err, more_input, out_received, err_received, receive_all,
}
use honeybee_potstore.Shell.Run.{
  Shell, World, Outside, Step, Call, run_command, call_command, Event, wrote, ended, perform,
  run_first, call_chain, run_next, idle, out_connection_lost, show_prompt, prompted, emit, ◌>>=◌,
}

-- What a command wrote to stdout, as the input of the next: None if it wrote nothing.
abbrev pub piped_input : Option Bytes → List Write → Option Bytes
piped_input i [] = i
piped_input i (to_out d ∷ ws) = piped_input (more_input d i) ws
piped_input i (to_err d ∷ ws) = piped_input i ws

-- What is on the terminal when stdout goes into a pipe, and when it does not.
abbrev pub errors : List Write → List Event
errors [] = []
errors (to_out d ∷ ws) = errors ws
errors (to_err d ∷ ws) = wrote d ∷ errors ws

abbrev pub everything : List Write → List Event
everything [] = []
everything (to_out d ∷ ws) = wrote d ∷ everything ws
everything (to_err d ∷ ws) = wrote d ∷ everything ws

-- The effect of commands with arguments that are joined by pipes, from the input of the first.
abbrev pub pipe_effect :
    {C S : Type 0}
    → (C → List Text → Option Bytes → S → List Write × S)
    → List (C × List Text)
    → Option Bytes
    → S
    → List Event × S
pipe_effect call [] i m = ([], m)
pipe_effect call (c ∷ []) i m = let called = call c.0 c.1 i m in (everything called.0, called.1)
pipe_effect call (c ∷ d ∷ cs) i m =
    let called = call c.0 c.1 i m in
    let rest = pipe_effect call (d ∷ cs) (piped_input none called.0) called.1 in
    (errors called.0 ++ rest.0, rest.1)

module _ {C : Type 0} where
  abbrev pub fresh : C × List Text → Stage C
  fresh c = new_stage c.0 c.1 false

  abbrev pub chain_of : Option Bytes → List (C × List Text) → List (Stage C)
  chain_of i [] = []
  chain_of i (c ∷ cs) = record (fresh c) { input_data = i } ∷ map fresh cs

  -- The objects after the writes of the first.
  receive-piped :
      (ws : List Write) (s n : Stage C) (rest : List (Stage C))
      → (s' : Stage C) × ((receive_all ws (s ∷ n ∷ rest)).0
          ≡ s' ∷ record n { input_data = piped_input n.input_data ws } ∷ rest)
        × (map wrote (receive_all ws (s ∷ n ∷ rest)).1 ≡ errors ws)
  unfolding receive_all out_received err_received
  receive-piped [] s n rest = (s, refl, refl)
  receive-piped (to_out d ∷ ws) s n rest =
      receive-piped ws (record s { last_data = d })
        (record n { input_data = more_input d n.input_data }) rest
  receive-piped (to_err d ∷ ws) s n rest =
      let (s', p, q) = receive-piped ws (record s { err_data = s.err_data ++ d }) n rest in
      (s', p, ap (◌∷◌ (wrote d)) q)

  out_received-last :
      (d : Bytes) (s : Stage C)
      → s.redirect ≡ false
      → out_received d (s ∷ []) ≡ (record s { last_data = d } ∷ [], d ∷ [])
  unfolding out_received
  out_received-last d s h = rw h refl

  err_received-lem :
      (d : Bytes) (s : Stage C) (rest : List (Stage C))
      → err_received d (s ∷ rest) ≡ (record s { err_data = s.err_data ++ d } ∷ rest, d ∷ [])
  unfolding err_received
  err_received-lem d s rest = refl

  receive-last :
      (ws : List Write) (s : Stage C)
      → s.redirect ≡ false
      → (s' : Stage C) × ((receive_all ws (s ∷ [])).0 ≡ s' ∷ [])
        × (map wrote (receive_all ws (s ∷ [])).1 ≡ everything ws)
  unfolding receive_all
  receive-last [] s h = (s, refl, refl)
  receive-last (to_out d ∷ ws) s h =
      let (s', p, q) = receive-last ws (record s { last_data = d }) h in
      (s', rw (out_received-last d s h) p, rw (out_received-last d s h) (ap (◌∷◌ (wrote d)) q))
  receive-last (to_err d ∷ ws) s h =
      let (s', p, q) = receive-last ws (record s { err_data = s.err_data ++ d }) h in
      (s', rw (err_received-lem d s []) p, rw (err_received-lem d s []) (ap (◌∷◌ (wrote d)) q))

module _ {C S : Type 0} (sh : Shell) (o : Outside C S) where
  -- The world after a command of a chain, `pp` and the events apart.
  abbrev pub moved : List (Stage C) → S → List Event → World C S → World C S
  moved chain m es w = record w { pp = chain; machine = m; events = w.events ++ es }

  pub run_first-piped :
      (s n : Stage C) (rest : List (Stage C)) (w : World C S)
      → let called = o.call s.cmd s.cmdargs s.input_data w.machine in
        (s' : Stage C) × (run_first sh o (s ∷ n ∷ rest) w
          ≡ moved
              (s' ∷ record n { input_data = piped_input n.input_data called.0 } ∷ rest)
              called.1
              (errors called.0)
              w)
  unfolding run_first
  run_first-piped s n rest w =
      let called = o.call s.cmd s.cmdargs s.input_data w.machine in
      let (s', p, q) = receive-piped called.0 s n rest in (s', rw (p, q) refl)

  pub run_first-last :
      (s : Stage C) (w : World C S)
      → s.redirect ≡ false
      → let called = o.call s.cmd s.cmdargs s.input_data w.machine in
        (s' : Stage C) × (run_first sh o (s ∷ []) w
          ≡ moved (s' ∷ []) called.1 (everything called.0) w)
  unfolding run_first
  run_first-last s w h =
      let called = o.call s.cmd s.cmdargs s.input_data w.machine in
      let (s', p, q) = receive-last called.0 s h in (s', rw (p, q) refl)

  -- With nothing pending and one command left there is a prompt.
  abbrev pub IsDone : Result (Unit {0}) × World C S → List Event → S → World C S → Type 0
  IsDone r es m w = (t : Stage C) × (r ≡ idle sh o (t ∷ []) (moved (t ∷ []) m es w))

  perform-idle :
      (n : ℕ) (w : World C S)
      → w.cmdpending ≡ []
      → perform sh o (suc n) run_command w ≡ idle sh o w.pp w
  unfolding perform run_next
  perform-idle n w e = rw e refl

  pub perform-call :
      (n : ℕ) (chain : List (Stage C)) (w : World C S)
      → perform sh o (suc n) (call_command chain) w ≡ (
          perform sh o n run_command (run_first sh o chain w)
          >>= out_connection_lost sh o (perform sh o n))
  unfolding perform call_chain
  perform-call n chain w = refl

  prompted-lost :
      (again : Call C → Step C S) (t : Stage C) (p : Result Bytes) (w : World C S)
      → w.pp ≡ t ∷ []
      → (prompted sh o p w >>= out_connection_lost sh o again) ≡ prompted sh o p w
  unfolding out_connection_lost
  prompted-lost again t (err e) w h = refl
  prompted-lost again t (ok p) w h = rw h refl

  ended-lost :
      (again : Call C → Step C S) (t : Stage C) (b : Bool) (w : World C S)
      → w.pp ≡ t ∷ []
      → ((ok tt, if b then emit sh o (ended ∷ []) w else w) >>= out_connection_lost sh o again)
        ≡ (ok tt, if b then emit sh o (ended ∷ []) w else w)
  unfolding out_connection_lost
  ended-lost again t true w h = rw h refl
  ended-lost again t false w h = rw h refl

  pub idle-lost :
      (again : Call C → Step C S) (t : Stage C) (w : World C S)
      → w.pp ≡ t ∷ []
      → (idle sh o (t ∷ []) w >>= out_connection_lost sh o again) ≡ idle sh o (t ∷ []) w
  unfolding show_prompt out_connection_lost
  idle-lost again t w h = elim (Bool-cases sh.interactive) [
    | inl p ↦ rw p (prompted-lost again t (o.prompt w.machine) w h)
    | inr p ↦ rw p (ended-lost again t sh.alone w h)
  ]

  pub Done-moved :
      (r : Result (Unit {0}) × World C S) (es fs : List Event) (chain : List (Stage C)) (m k : S)
      (w : World C S)
      → IsDone r fs k (moved chain m es w)
      → IsDone r (es ++ fs) k w
  Done-moved r es fs chain m k w (t, q) = (t, rw (← append_assoc w.events es fs) q)

  perform-first :
      (n : ℕ) (chain : List (Stage C)) (w u : World C S)
      → run_first sh o chain w ≡ u
      → u.cmdpending ≡ []
      → perform sh o (suc (suc n)) (call_command chain) w
        ≡ (idle sh o u.pp u >>= out_connection_lost sh o (perform sh o (suc n)))
  perform-first n chain w u q e =
      perform-call (suc n) chain w
      ∙ ap
          (λ v.
            perform sh o (suc n) run_command v >>= out_connection_lost sh o (perform sh o (suc n)))
          q
      ∙ ap (λ r. r >>= out_connection_lost sh o (perform sh o (suc n))) (perform-idle n u e)

  pub pipeline-Done :
      (n : ℕ) (c : C × List Text) (cs : List (C × List Text)) (i : Option Bytes) (w : World C S)
      → w.cmdpending ≡ []
      → length cs ≤ n
      → let effect = pipe_effect o.call (c ∷ cs) i w.machine in
        IsDone
          (perform sh o (suc (suc n)) (call_command (chain_of i (c ∷ cs))) w)
          effect.0
          effect.1
          w
  unfolding new_stage out_connection_lost
  pipeline-Done n c [] i w e l =
      let s = record (fresh c) { input_data = i } in
      let (t, q) = run_first-last s w refl in
      (t, perform-first n (s ∷ []) w _ q e ∙ idle-lost (perform sh o (suc n)) t _ refl)
  pipeline-Done zero c (d ∷ cs) i w e l = absurd (omega arith)
  pipeline-Done (suc n) c (d ∷ cs) i w e l =
      let s = record (fresh c) { input_data = i } in
      let called = o.call c.0 c.1 i w.machine in
      let (t, q) = run_first-piped s (fresh d) (map fresh cs) w in
      let next = piped_input none called.0 in
      let u = moved (t ∷ chain_of next (d ∷ cs)) called.1 (errors called.0) w in
      let (t', r) = pipeline-Done n d cs next u e (omega arith) in
      let effect = pipe_effect o.call (d ∷ cs) next called.1 in
      Done-moved (perform sh o (suc (suc (suc n))) (call_command (chain_of i (c ∷ d ∷ cs))) w)
        (errors called.0) effect.0 (t ∷ chain_of next (d ∷ cs)) called.1 effect.1 w
        (t', perform-first (suc n) (chain_of i (c ∷ d ∷ cs)) w u q e ∙ r)
