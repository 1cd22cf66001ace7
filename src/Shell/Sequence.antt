-- ===== src/Shell/Sequence.antt =====
-- What the pending commands of a line do, one after the other (cowrie/src/cowrie/shell/honeypot.py and protocol.py).
use mathlib.Core.List.{append_assoc}
use mathlib.Core.Path.{subst}
use honeybee_potstore.Base.{
  ℕ, zero, suc, ◌≤◌, List, [], ◌∷◌, ◌++◌, ◌≡◌, refl, ap, sym, ◌∙◌, none, some, Result, arith,
  length, map,
}
use honeybee_potstore.Base.Text.{Text, codes}
use honeybee_potstore.Base.Dict.{lookup, text_keys}
use honeybee_potstore.Auth.Strings.{split}
use honeybee_potstore.Shell.Words.{Environ, assignments, cmd_array}
use honeybee_potstore.Shell.Stages.{Stage, new_stage}
use honeybee_potstore.Shell.Run.{
  Shell, World, Outside, run_command, call_command, Event, perform, run_first, run_next, idle,
  out_connection_lost, ◌>>=◌, ready, prepare,
}
use honeybee_potstore.Shell.Pipeline.{
  fresh, chain_of, pipe_effect, errors, everything, moved, pipeline-Done, run_first-piped,
  run_first-last, perform-call, idle-lost,
}

module _ {C S : Type 0} (sh : Shell) (o : Outside C S) where
  -- The words are those of a pipeline of commands that are all found.
  abbrev pub Ready : List Text → S → List (C × List Text) → Type 0
  Ready words m cmds =
      (env : Environ) × (c : ℕ) × (name : Text) × (ws : List Text) × (path : Text) × (assignments
          sh.environ words
        ≡ (env, (c ∷ name) ∷ ws))
      × (lookup (codes "PATH") env ≡ some path)
      × (prepare sh o (split 58 path) m (cmd_array (c ∷ name) ws) ≡ ready (chain_of none cmds))

  -- The first command of a pipeline alone.
  abbrev pub first_effect : (C × List Text) → List (C × List Text) → S → List Event × S
  first_effect c [] m = let called = o.call c.0 c.1 none m in (everything called.0, called.1)
  first_effect c (d ∷ cs) m = let called = o.call c.0 c.1 none m in (errors called.0, called.1)

  -- What a list of pending pipelines does, where all commands are found: of each pipeline but the last, the
  -- first command alone. The first index is how deep the calls nest.
  pub data Runs : ℕ → List (List Text) → S → List Event → S → Type 0 where
    last :
        {words : List Text} {m : S} (c : C × List Text) (cs : List (C × List Text))
        → Ready words m (c ∷ cs)
        → Runs
            (suc (suc (suc (length cs))))
            (words ∷ [])
            m
            (pipe_effect o.call (c ∷ cs) none m).0
            (pipe_effect o.call (c ∷ cs) none m).1
    more :
        {d : ℕ} {words next : List Text} {rest : List (List Text)} {m k : S} {es : List Event}
        (c : C × List Text) (cs : List (C × List Text))
        → Ready words m (c ∷ cs)
        → Runs d (next ∷ rest) (first_effect c cs m).1 es k
        → Runs (suc (suc d)) (words ∷ next ∷ rest) m ((first_effect c cs m).0 ++ es) k

  perform-Ready :
      (n : ℕ) (words : List Text) (rest : List (List Text)) (cmds : List (C × List Text))
      (w : World C S)
      → w.cmdpending ≡ words ∷ rest
      → Ready words w.machine cmds
      → perform sh o (suc n) run_command w
        ≡ perform sh o n (call_command (chain_of none cmds)) (record w { cmdpending = rest })
  unfolding perform run_next
  perform-Ready n words rest cmds w e (env, c, name, ws, path, a, p, q) = rw (e, a, p, q) refl

  run_first-effect :
      (c : C × List Text) (cs : List (C × List Text)) (w : World C S)
      → (chain : List (Stage C)) × (run_first sh o (chain_of none (c ∷ cs)) w
          ≡ moved sh o chain (first_effect c cs w.machine).1 (first_effect c cs w.machine).0 w)
  unfolding new_stage
  run_first-effect c [] w = let (t, q) = run_first-last sh o (fresh c) w refl in (t ∷ [], q)
  run_first-effect c (d ∷ cs) w =
      let (t, q) = run_first-piped sh o (fresh c) (fresh d) (map fresh cs) w in (_, q)

  -- All is over: one object is left, nothing is pending, and the shell shows its prompt.
  abbrev pub IsOver : Result (Unit {0}) × World C S → List Event → S → World C S → Type 0
  IsOver r es m w =
      (t : Stage C) × (r
        ≡ idle sh o (t ∷ []) (record (moved sh o (t ∷ []) m es w) { cmdpending = [] }))

  then_idle :
      (n : ℕ) (r : Result (Unit {0}) × World C S) (es fs : List Event) (chain : List (Stage C))
      (m k : S) (w : World C S)
      → IsOver r fs k (moved sh o chain m es w)
      → IsOver (r >>= out_connection_lost sh o (perform sh o n)) (es ++ fs) k w
  then_idle n r es fs chain m k w (t, q) = (
    t,
    rw (← append_assoc w.events es fs) (
        ap (λ x. x >>= out_connection_lost sh o (perform sh o n)) q
        ∙ idle-lost sh o (perform sh o n) t _ refl),
  )

  perform-last :
      (n : ℕ) (words : List Text) (c : C × List Text) (cs : List (C × List Text)) (w : World C S)
      → suc (suc (suc (length cs))) ≤ n
      → w.cmdpending ≡ words ∷ []
      → Ready words w.machine (c ∷ cs)
      → let effect = pipe_effect o.call (c ∷ cs) none w.machine in
        IsOver (perform sh o n run_command w) effect.0 effect.1 w
  perform-last (suc (suc (suc n))) words c cs w l e r =
      let (t, q) =
        pipeline-Done sh o n c cs none (record w { cmdpending = [] }) refl (omega arith) in
      (t, perform-Ready (suc (suc n)) words [] (c ∷ cs) w e r ∙ q)
  perform-last zero words c cs w l e r = absurd (omega arith)
  perform-last (suc zero) words c cs w l e r = absurd (omega arith)
  perform-last (suc (suc zero)) words c cs w l e r = absurd (omega arith)

  perform-more :
      (n : ℕ) (words : List Text) (rest : List (List Text)) (c : C × List Text)
      (cs : List (C × List Text)) (fs : List Event) (k : S) (w : World C S)
      → w.cmdpending ≡ words ∷ rest
      → Ready words w.machine (c ∷ cs)
      → let effect = first_effect c cs w.machine in
        ((u : World C S)
          → u.cmdpending ≡ rest
          → u.machine ≡ effect.1
          → IsOver (perform sh o n run_command u) fs k u)
        → IsOver (perform sh o (suc (suc n)) run_command w) (effect.0 ++ fs) k w
  perform-more n words rest c cs fs k w e r ih =
      let effect = first_effect c cs w.machine in
      let w1 = record w { cmdpending = rest } in
      let (chain, q) = run_first-effect c cs w1 in
      let u = moved sh o chain effect.1 effect.0 w1 in
      let (t, p) =
        then_idle n (perform sh o n run_command u) effect.0 fs chain effect.1 k w1
          (ih u refl refl) in
      (
        t,
        perform-Ready (suc n) words rest (c ∷ cs) w e r
            ∙ perform-call sh o n (chain_of none (c ∷ cs)) w1
            ∙ ap (λ v. perform sh o n run_command v >>= out_connection_lost sh o (perform sh o n)) q
            ∙ p,
      )

  -- A line of pipelines whose commands are all found does what `Runs` says, then the prompt comes, if Python
  -- lets calls nest deep enough: in the last pipeline each command reads what the one before it wrote,
  -- and of every pipeline before that only the first command ever runs.
  pub perform-Runs :
      (n d : ℕ) (ps : List (List Text)) (m k : S) (es : List Event) (w : World C S)
      → Runs d ps m es k
      → d ≤ n
      → w.cmdpending ≡ ps
      → w.machine ≡ m
      → IsOver (perform sh o n run_command w) es k w
  perform-Runs n d ps m k es w (last {words} c cs r) l e f =
      subst
        (λ x.
          IsOver (perform sh o n run_command w) (pipe_effect o.call (c ∷ cs) none x).0
            (pipe_effect o.call (c ∷ cs) none x).1 w)
        f (perform-last n words c cs w l e (subst (λ x. Ready words x (c ∷ cs)) (sym f) r))
  perform-Runs zero d ps m k es w (more c cs r rs) l e f = absurd (omega arith)
  perform-Runs (suc zero) d ps m k es w (more c cs r rs) l e f = absurd (omega arith)
  perform-Runs (suc (suc n)) d ps m k es w (more {d = d'} {words} {next} {rest} {es = fs} c cs r rs)
        l e f =
      subst
        (λ x. IsOver (perform sh o (suc (suc n)) run_command w) ((first_effect c cs x).0 ++ fs) k w)
        f
        (perform-more n words (next ∷ rest) c cs fs k w e
          (subst (λ x. Ready words x (c ∷ cs)) (sym f) r)
          (λ u p q.
            perform-Runs n d' (next ∷ rest) _ k fs u rs (omega arith) p
              (q ∙ ap (λ x. (first_effect c cs x).1) f)))
