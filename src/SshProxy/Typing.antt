-- ===== src/SshProxy/Typing.antt =====
-- Term (cowrie/src/cowrie/ssh_proxy/protocols/term.py) through the packets of both sides.
use mathlib.Core.Path.{subst}
use honeybee_potstore.Base.{
  ℕ, zero, suc, ◌+◌, ◌≡◌, refl, sym, ◌∙◌, Bool, true, false, List, [], ◌∷◌, Result, ok, arith,
  length, All, if◌then◌else◌,
}
use honeybee_potstore.Base.Int.{ℤ, pos}
use honeybee_potstore.Base.Text.{Bytes}
use honeybee_potstore.TtyLog.Record.{Stamp, int_eq, ttylog_write, type_input, type_output}
use honeybee_potstore.SshProxy.Term.{
  Parent, server, client, Term, Key, tab, backspace, home, end, right, left, arrow, enter, plain,
  key_at, press, server_loop, after_tab, after_arrow, log_packet, parse_packet,
}
use honeybee_potstore.SshProxy.Editor.{Line, keys, edit_all, Follows, loop-Follows}

pub record Packet : Type 0 where
  pub parent : Parent
  pub stamp : Stamp
  pub content : Bytes

-- The state after the packets. A raise, from the log, keeps what was changed before it.
abbrev pub parse_all : List Packet → Term → Term
parse_all [] p = p
parse_all (x ∷ xs) p = parse_all xs (parse_packet x.parent x.stamp x.content p).1

abbrev pub typed_keys : Parent → Bytes → List Key
typed_keys server content = keys 0 content
typed_keys client content = []

-- What the attacker types, put on a line packet by packet.
abbrev pub edit_packets : List Packet → Line → Line
edit_packets [] e = e
edit_packets (x ∷ xs) e = edit_packets xs (edit_all (typed_keys x.parent x.content) e)

abbrev pub NoArrow : Key → Type 0
NoArrow arrow = ⊥
NoArrow _ = Unit

abbrev pub IsPlainKey : Key → Type 0
IsPlainKey tab = ⊥
IsPlainKey arrow = ⊥
IsPlainKey _ = Unit

abbrev pub AllTyped : (Key → Type 0) → List Packet → Type 0
AllTyped P xs = All (λ x. All P (typed_keys x.parent x.content)) xs

-- What does not look at the log is as before.
pub log_packet-keeps :
    (P : Term → Type 0)
    → ((p : Term) (n : ℕ) (file : Bytes)
        → P p
        → P (record p { ttylog_size = n; ttylog_file = file }))
    → (d : ℤ) (t : Stamp) (content : Bytes) (p : Term) → P p
    → P (log_packet d t content p).1
log_packet-keeps P keeps d t content p h =
    choice p.ttylog_enabled
      (let (r, file) = ttylog_write (pos (length content)) d t content p.ttylog_file in
        (r, record p { ttylog_size = p.ttylog_size + length content; ttylog_file = file }))
      (ok tt, p)
      (keeps p (p.ttylog_size + length content)
        (ttylog_write (pos (length content)) d t content p.ttylog_file).1 h)
      h
  where
    choice : (b : Bool) (x y : Result (Unit {0}) × Term) → P x.1 → P y.1 → P (if b then x else y).1
    choice true x y i j = i
    choice false x y i j = j

pub press-up_arrow : (k : Key) (p : Term) → NoArrow k → (press k p).up_arrow ≡ p.up_arrow
unfolding press int_eq
press-up_arrow tab p h = refl
press-up_arrow backspace p h = ground arith
press-up_arrow home p h = refl
press-up_arrow end p h = refl
press-up_arrow right p h = ground arith
press-up_arrow left p h = ground arith
press-up_arrow arrow p h = elim h [ ]
press-up_arrow (enter b) p h = refl
press-up_arrow (plain b) p h = refl

press-tab_press : (k : Key) (p : Term) → IsPlainKey k → (press k p).tab_press ≡ p.tab_press
unfolding press int_eq
press-tab_press tab p h = elim h [ ]
press-tab_press backspace p h = ground arith
press-tab_press home p h = refl
press-tab_press end p h = refl
press-tab_press right p h = ground arith
press-tab_press left p h = ground arith
press-tab_press arrow p h = elim h [ ]
press-tab_press (enter b) p h = refl
press-tab_press (plain b) p h = refl

NoArrow-plain : (k : Key) → IsPlainKey k → NoArrow k
NoArrow-plain tab h = elim h [ ]
NoArrow-plain backspace h = tt
NoArrow-plain home h = tt
NoArrow-plain end h = tt
NoArrow-plain right h = tt
NoArrow-plain left h = tt
NoArrow-plain arrow h = elim h [ ]
NoArrow-plain (enter b) h = tt
NoArrow-plain (plain b) h = tt

-- A flag that no key of a kind changes, no packet with such keys changes.
pub loop-flag :
    (flag : Term → Bool) (P : Key → Type 0)
    → ((k : Key) (p : Term) → P k → flag (press k p) ≡ flag p)
    → (skip : ℕ) (bs : Bytes) (p : Term) → All P (keys skip bs)
    → flag (server_loop skip bs p) ≡ flag p
unfolding server_loop keys
loop-flag flag P keeps skip [] p h = refl
loop-flag flag P keeps (suc skip) (b ∷ bs) p h = loop-flag flag P keeps skip bs p h
loop-flag flag P keeps zero (b ∷ bs) p h =
    let (k, n) = key_at b bs in loop-flag flag P keeps n bs (press k p) h.1 ∙ keeps k p h.0

abbrev IsQuiet : Term → Type 0
IsQuiet p = (p.tab_press ≡ false) × (p.up_arrow ≡ false)

abbrev FollowsQuietly : Line → Term → Type 0
FollowsQuietly e p = IsQuiet p × Follows p e

-- Where no completion or arrow is awaited, the answer of the back end changes nothing.
pub no_arrow : (content : Bytes) (p : Term) → p.up_arrow ≡ false → after_arrow content p ≡ p
unfolding after_arrow
no_arrow content p h = rw (h)

after_quiet :
    (content : Bytes) (p : Term) → IsQuiet p → after_arrow content (after_tab content p) ≡ p
unfolding after_arrow after_tab
after_quiet content p h = rw (h.0, h.1)

keeps-log :
    (e : Line) (p : Term) (n : ℕ) (file : Bytes)
    → FollowsQuietly e p
    → FollowsQuietly e (record p { ttylog_size = n; ttylog_file = file })
keeps-log e p n file h = h

parse_packet-Follows :
    (x : Packet) (p : Term) (e : Line)
    → All IsPlainKey (typed_keys x.parent x.content)
    → FollowsQuietly e p
    → FollowsQuietly
        (edit_all (typed_keys x.parent x.content) e)
        (parse_packet x.parent x.stamp x.content p).1
unfolding parse_packet
parse_packet-Follows x p e = by_parent x.parent
  where
    by_parent :
        (who : Parent)
        → All IsPlainKey (typed_keys who x.content)
        → FollowsQuietly e p
        → FollowsQuietly
            (edit_all (typed_keys who x.content) e)
            (parse_packet who x.stamp x.content p).1
    by_parent server k h =
        log_packet-keeps (FollowsQuietly (edit_all (keys 0 x.content) e))
          (keeps-log (edit_all (keys 0 x.content) e)) type_output x.stamp x.content
          (server_loop 0 x.content p)
          (
            (
              loop-flag (λ q. q.tab_press) IsPlainKey press-tab_press 0 x.content p k ∙ h.0.0,
              loop-flag (λ q. q.up_arrow) IsPlainKey
                    (λ j q i. press-up_arrow j q (NoArrow-plain j i)) 0 x.content p k
                  ∙ h.0.1,
            ),
            loop-Follows 0 x.content p e h.1,
          )
    by_parent client k h =
        log_packet-keeps (FollowsQuietly e) (keeps-log e) type_input x.stamp x.content
          (after_arrow x.content (after_tab x.content p))
          (subst (FollowsQuietly e) (sym (after_quiet x.content p h.0)) h)

-- What the editor does with the keys that `key_at` tells in each packet, the command follows, while neither
-- Tab nor an arrow up or down is among them.
pub parse_all-Follows :
    (xs : List Packet) (p : Term) (e : Line)
    → p.tab_press ≡ false
    → p.up_arrow ≡ false
    → AllTyped IsPlainKey xs
    → Follows p e
    → Follows (parse_all xs p) (edit_packets xs e)
parse_all-Follows xs p e t u k h = (quietly xs p e k ((t, u), h)).1
  where
    quietly :
        (xs : List Packet) (p : Term) (e : Line)
        → AllTyped IsPlainKey xs
        → FollowsQuietly e p
        → FollowsQuietly (edit_packets xs e) (parse_all xs p)
    quietly [] p e k h = h
    quietly (x ∷ xs) p e k h =
        quietly xs (parse_packet x.parent x.stamp x.content p).1
          (edit_all (typed_keys x.parent x.content) e) k.1 (parse_packet-Follows x p e k.0 h)
