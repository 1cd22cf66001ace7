-- ===== src/SshProxy/Within.antt =====
-- Where the pointer of Term (cowrie/src/cowrie/ssh_proxy/protocols/term.py) is, through the packets of both sides.
use mathlib.Core.Path.{subst}
use honeybee_potstore.Base.{
  ℕ, ◌≤◌, ◌≡◌, refl, sym, ap, ◌∙◌, Bool, true, false, List, [], ◌∷◌, ◌++◌, arith, length, All,
  if◌then◌else◌, ◌||◌,
}
use honeybee_potstore.Base.Int.{pos}
use honeybee_potstore.Base.Text.{Bytes, text_eq}
use honeybee_potstore.TelnetProxy.Strings.{starts_with}
use honeybee_potstore.TtyLog.Record.{Stamp, type_input, type_output}
use honeybee_potstore.SshProxy.Term.{
  Parent, server, client, Term, server_loop, complete, after_tab, after_arrow, parse_packet,
}
use honeybee_potstore.SshProxy.Editor.{
  Line, line, keys, edit_all, Follows, append_onto, length-onto, loop-Follows,
}
use honeybee_potstore.SshProxy.Typing.{
  Packet, parse_all, typed_keys, NoArrow, AllTyped, log_packet-keeps, press-up_arrow, loop-flag,
  no_arrow,
}

-- The pointer is at a place of the command.
abbrev pub IsWithin : Term → Type 0
IsWithin p = (n : ℕ) × (p.pointer ≡ pos n) × (n ≤ length p.command)

abbrev OnLine : Term → Type 0
OnLine p = ((e : Line) × Follows p e) × (p.up_arrow ≡ false)

OnLine-IsWithin : (p : Term) → OnLine p → IsWithin p
OnLine-IsWithin p h =
    let e = h.0.0 in
    (length e.before, h.0.1.1, omega (arith, ap length h.0.1.0, length-onto e.before e.after))

complete-OnLine : (content : Bytes) (p : Term) → OnLine p → OnLine (complete content p)
complete-OnLine content p h =
    choice (starts_with (13 ∷ []) content || text_eq content (7 ∷ [])) (e, h.0.1)
      (
        line e.before (e.after ++ content) e.said,
        (ap (λ b. b ++ content) h.0.1.0 ∙ append_onto e.before e.after content, h.0.1.1, h.0.1.2),
      )
  where
    e : Line
    e = h.0.0

    choice :
        (b : Bool)
        → ((f : Line) × Follows p f)
        → ((f : Line) × Follows (record p { command = p.command ++ content }) f)
        → OnLine (if b then p else record p { command = p.command ++ content })
    choice true i j = (i, h.1)
    choice false i j = (j, h.1)

after_tab-OnLine : (content : Bytes) (p : Term) → OnLine p → OnLine (after_tab content p)
unfolding after_tab
after_tab-OnLine content p h = choice p.tab_press
  where
    choice :
        (b : Bool) → OnLine (if b then record (complete content p) { tab_press = false } else p)
    choice true = complete-OnLine content p h
    choice false = h

after_arrow-OnLine : (content : Bytes) (p : Term) → OnLine p → OnLine (after_arrow content p)
after_arrow-OnLine content p h = subst OnLine (sym (no_arrow content p h.1)) h

keeps-OnLine :
    (p : Term) (n : ℕ) (file : Bytes)
    → OnLine p
    → OnLine (record p { ttylog_size = n; ttylog_file = file })
keeps-OnLine p n file h = h

parse_packet-OnLine :
    (who : Parent) (t : Stamp) (content : Bytes) (p : Term)
    → All NoArrow (typed_keys who content)
    → OnLine p
    → OnLine (parse_packet who t content p).1
unfolding parse_packet
parse_packet-OnLine server t content p k h =
    log_packet-keeps OnLine keeps-OnLine type_output t content (server_loop 0 content p) (
      (edit_all (keys 0 content) h.0.0, loop-Follows 0 content p h.0.0 h.0.1),
      loop-flag (λ q. q.up_arrow) NoArrow press-up_arrow 0 content p k ∙ h.1,
    )
parse_packet-OnLine client t content p k h =
    log_packet-keeps OnLine keeps-OnLine type_input t content
      (after_arrow content (after_tab content p))
      (after_arrow-OnLine content (after_tab content p) (after_tab-OnLine content p h))

parse_all-OnLine :
    (xs : List Packet) (p : Term) → AllTyped NoArrow xs → OnLine p → OnLine (parse_all xs p)
parse_all-OnLine [] p k h = h
parse_all-OnLine (x ∷ xs) p k h =
    parse_all-OnLine xs (parse_packet x.parent x.stamp x.content p).1 k.1
      (parse_packet-OnLine x.parent x.stamp x.content p k.0 h)

-- Until an arrow up or down is typed the pointer is at a place of the command, at its end at most, whatever
-- else is typed and whatever the back end answers, completions of words too.
pub parse_all-IsWithin :
    (xs : List Packet) (p : Term)
    → p.command ≡ []
    → p.pointer ≡ pos 0
    → p.up_arrow ≡ false
    → AllTyped NoArrow xs
    → IsWithin (parse_all xs p)
parse_all-IsWithin xs p c z u k =
    OnLine-IsWithin (parse_all xs p)
      (parse_all-OnLine xs p k ((line [] [] p.reports, (c, z, refl)), u))
