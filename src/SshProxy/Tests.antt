-- ===== src/SshProxy/Tests.antt =====
-- Tests and witnesses for cowrie/src/cowrie/ssh_proxy/protocols.
use honeybee_potstore.Base.{
  ◌≡◌, refl, Bool, true, false, List, [], ◌∷◌, ◌++◌, some, ok, inl, length, arith,
}
use honeybee_potstore.Base.Int.{pos, negsuc}
use honeybee_potstore.Base.Text.{Bytes, codes, text_eq}
use honeybee_potstore.TelnetProxy.Strings.{starts_with, but_last_byte}
use honeybee_potstore.TtyLog.Record.{
  int_eq, ttylog_write, ttylog_inputhash, input_bytes, pack_header, pack_i, pack_L, le32, number_le,
  signed, unpack_header, read, read_record,
}
use honeybee_potstore.SshProxy.Term.{
  Parent, server, client, Term, Key, plain, left, end, backspace, key_at, press, server_loop,
  client_at, client_loop, after_tab, after_arrow, parse_packet,
}
use honeybee_potstore.SshProxy.Reader.{
  Field, int32, string, reader, pack_fields, extract_fields, extract_fields-pack,
}
use honeybee_potstore.SshProxy.Editor.{line, keys, edit_all, Follows}
use honeybee_potstore.SshProxy.Keystrokes.{
  key_next, no_key, TypedIn, silent, types, answered, parse_all-TypedIn,
}
use Prim.Native.Char.{code}
use honeybee_potstore.SshProxy.Typing.{Packet, parse_all, AllTyped, NoArrow}
use honeybee_potstore.SshProxy.Within.{IsWithin, parse_all-IsWithin}

abbrev pub new_term : (logging : Bool) → Term
new_term logging = record {
  command = [];
  pointer = pos 0;
  tab_press = false;
  up_arrow = false;
  reports = [];
  ttylog_enabled = logging;
  ttylog_size = 0;
  ttylog_file = [];
}

abbrev from : Parent → Bytes → Packet
from who content = record {
  parent = who;
  stamp = record { whole = pos 5; micros = pos 0 };
  content = content;
}

-- `ks`, two arrows to the left, `l`, an answer, and backspace at the end: `lk`.
abbrev typed_line : List Packet
typed_line =
    from server (codes "ks" ++ 27 ∷ 91 ∷ 68 ∷ 27 ∷ 91 ∷ 68 ∷ [])
    ∷ from client (codes "ks")
    ∷ from server (codes "l" ++ (27 ∷ 79 ∷ 70 ∷ 127 ∷ []))
    ∷ []

no_arrows : AllTyped NoArrow typed_line
unfolding keys key_at starts_with
no_arrows = ((tt, (tt, (tt, (tt, tt)))), (tt, ((tt, (tt, (tt, tt))), tt)))

abbrev pressed : List Key
pressed =
    plain (code "k") ∷ plain (code "s") ∷ left ∷ left ∷ plain (code "l") ∷ end ∷ backspace ∷ []

typed_keys : TypedIn typed_line pressed
typed_keys =
    types _
      (key_next (plain (code "k")) (codes "k") (refl, ground arith)
        (key_next (plain (code "s")) (codes "s") (refl, ground arith)
          (key_next left (27 ∷ 91 ∷ 68 ∷ []) refl (key_next left (27 ∷ 91 ∷ 68 ∷ []) refl no_key))))
      (answered _ (codes "ks") (
        types _
          (key_next (plain (code "l")) (codes "l") (refl, ground arith)
            (key_next end (27 ∷ 79 ∷ 70 ∷ []) refl
              (key_next backspace (127 ∷ []) (inl refl) no_key)))
          silent))

parse_all-TypedIn_example :
    Follows (parse_all typed_line (new_term false)) (edit_all pressed (line [] [] []))
parse_all-TypedIn_example =
    parse_all-TypedIn typed_line pressed (new_term false) (line [] [] []) typed_keys
      (tt, (tt, (tt, (tt, (tt, (tt, (tt, tt))))))) refl refl (refl, refl, refl)

-- An arrow that comes in two packets is taken for three bytes of the command.
cut_arrow :
    (parse_all
      (from server (codes "l") ∷ from server (27 ∷ []) ∷ from server (91 ∷ 68 ∷ []) ∷ [])
      (new_term false)).command
    ≡ 108 ∷ 27 ∷ 91 ∷ 68 ∷ []
unfolding parse_packet server_loop press key_at starts_with
cut_arrow = refl

edited_line : edit_all pressed (line [] [] []) ≡ line (codes "kl") [] []
edited_line = refl

parse_all-IsWithin_example : IsWithin (parse_all typed_line (new_term false))
parse_all-IsWithin_example = parse_all-IsWithin typed_line (new_term false) refl refl refl no_arrows

-- What is typed after a completion is put before it.
tab_misplaced :
    (parse_all
      (from server (108 ∷ 9 ∷ []) ∷ from client (codes "s") ∷ from server (codes "x") ∷ [])
      (new_term false)).command
    ≡ codes "lxs"
unfolding parse_packet server_loop press key_at starts_with after_tab after_arrow text_eq
tab_misplaced = refl

-- A backspace in an answer moves the pointer in front of the command.
pointer_lost :
    (parse_all
      (from server (27 ∷ 91 ∷ 65 ∷ []) ∷ from client (8 ∷ []) ∷ [])
      (new_term false)).pointer
    ≡ negsuc 0
unfolding parse_packet server_loop press key_at starts_with after_tab after_arrow client_loop
    client_at but_last_byte
pointer_lost = refl

-- The hash of the log is over what the back end wrote, and not over what was typed.
hash_of_output :
    ttylog_inputhash
      (λ bs. bs)
      9
      (parse_all
        (from server (codes "id") ∷ from client (codes "uid") ∷ [])
        (new_term true)).ttylog_file
    ≡ some (ok (codes "uid"))
unfolding parse_packet server_loop press key_at starts_with after_tab after_arrow ttylog_write
    ttylog_inputhash input_bytes pack_header pack_i pack_L le32 number_le signed unpack_header read
    read_record int_eq
hash_of_output = refl

abbrev two_fields : List Field
two_fields = int32 7 ∷ string (codes "root") ∷ []

extract_fields-pack_example :
    (bs : Bytes) × (pack_fields two_fields ≡ ok bs)
    × (extract_fields two_fields (reader bs (pos (length bs))) ≡ (two_fields, reader [] (pos 0)))
extract_fields-pack_example = extract_fields-pack two_fields (omega arith, (omega arith, tt))
