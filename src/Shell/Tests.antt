-- ===== src/Shell/Tests.antt =====
-- Tests and witnesses for the shell (cowrie/src/cowrie/shell/honeypot.py and protocol.py).
use honeybee_potstore.Base.{
  err, file_not_found, is_a_directory, ℕ, ◌+◌, ◌≡◌, refl, true, false, [], ◌∷◌, List, Option, none,
  some, arith, if◌then◌else◌, ok, is_some, ◌⊎◌,
}
use honeybee_potstore.Base.Text.{Text, Bytes, codes, text_eq, contains}
use honeybee_potstore.Base.Dict.{lookup, insert, text_keys}
use honeybee_potstore.Auth.Strings.{split, has, strip, strip_left, strip_right}
use honeybee_potstore.Fs.Paths.{
  resolve_path, join, start_pieces, follow_pieces, pop, rstrip_slashes, strip_slashes,
}
use honeybee_potstore.Fs.Normal.{Normal}
use honeybee_potstore.Fs.Node.{node, entry, no_entries, file, dir, node_at, child, entries}
use honeybee_potstore.Fs.Changes.{new_node}
use honeybee_potstore.Fs.Lookup.{exists, getfile, walk, scan, enter, iterate, last_piece}
use honeybee_potstore.Shell.Words.{
  Cmd, assignments, cmd_array, split_pipes, piped, first_cmd, split_once,
}
use honeybee_potstore.Shell.Stages.{Write, to_out, new_stage}
use honeybee_potstore.Shell.Run.{Shell, World, Outside, run_command, wrote, perform, prepare}
use honeybee_potstore.Shell.Sequence.{Ready, Runs, last, more, IsOver, perform-Runs}
use honeybee_potstore.Fs.Changes.{starts_with}
use honeybee_potstore.Shell.Subst.{
  Lexeme, token, Reading, Nested, substitutes, has_dollar_paren, split_dollar, full_output,
  run_subshell_command, rstrip_newlines, join_spaces,
}
use honeybee_potstore.Shell.Scan.{do_command_substitution, scan_subst}
use honeybee_potstore.Shell.Line.{line_received}
use honeybee_potstore.Shell.Plain.{both, line_received-commands}
use honeybee_potstore.Shell.Split.{cmd_array-spell}
use honeybee_potstore.Shell.Prompt.{shown_cwd}
use honeybee_potstore.Shell.Home.{resolve_path-shown_cwd}
use honeybee_potstore.Shell.Find.{builtin, Commands, Files, find_path, get_command, is_blank}
use honeybee_potstore.Shell.Found.{get_command-exists}

-- `echo`, which writes its first word, and `cat`, which writes its input; the state counts the calls.
abbrev first_word : List Text → Text
first_word [] = []
first_word (w ∷ ws) = w

abbrev or_nothing : Option Bytes → Bytes
or_nothing none = []
or_nothing (some d) = d

abbrev small_call : Text → List Text → Option Bytes → ℕ → List Write × ℕ
small_call c args i m = (
  (if text_eq c (codes "echo") then to_out (first_word args) else to_out (or_nothing i)) ∷ [],
  m + 1,
)

abbrev small : Outside Text ℕ
small = record {
  call = small_call;
  get_command =
      λ name paths m. if contains name (codes "echo" ∷ codes "cat" ∷ []) then some name else none;
  prompt = λ m. ok (codes "$ ");
}

abbrev sh : Shell
sh = record {
  interactive = true;
  redirect = false;
  environ = (codes "PATH", codes "/bin:/usr/bin") ∷ [];
  exec = false;
  alone = true;
}

abbrev echo_cat : Text → List Text
echo_cat w = codes "echo" ∷ w ∷ codes "|" ∷ codes "cat" ∷ []

abbrev two_pipelines : World Text ℕ
two_pipelines = record {
  cmdpending = echo_cat (codes "a") ∷ echo_cat (codes "b") ∷ [];
  pp = [];
  machine = 0;
  events = [];
}

abbrev echo_then_cat : Text → List (Text × List Text)
echo_then_cat w = (codes "echo", w ∷ []) ∷ (codes "cat", []) ∷ []

first-Ready : (m : ℕ) → Ready sh small (echo_cat (codes "a")) m (echo_then_cat (codes "a"))
unfolding assignments has split_once lookup text_eq split prepare contains cmd_array first_cmd piped
    split_pipes new_stage insert
first-Ready m = (
  sh.environ,
  101,
  codes "cho",
  codes "a" ∷ codes "|" ∷ codes "cat" ∷ [],
  codes "/bin:/usr/bin",
  refl,
  refl,
  refl,
)

second-Ready : (m : ℕ) → Ready sh small (echo_cat (codes "b")) m (echo_then_cat (codes "b"))
unfolding assignments has split_once lookup text_eq split prepare contains cmd_array first_cmd piped
    split_pipes new_stage insert
second-Ready m = (
  sh.environ,
  101,
  codes "cho",
  codes "b" ∷ codes "|" ∷ codes "cat" ∷ [],
  codes "/bin:/usr/bin",
  refl,
  refl,
  refl,
)

two-Runs : Runs sh small 6 two_pipelines.cmdpending 0 (wrote (codes "b") ∷ []) 3
unfolding text_eq
two-Runs =
    more (codes "echo", codes "a" ∷ []) ((codes "cat", []) ∷ []) (first-Ready 0)
      (last (codes "echo", codes "b" ∷ []) ((codes "cat", []) ∷ []) (second-Ready 1))

-- Of `echo a | cat; echo b | cat` the terminal shows `b` alone: the first `cat` is never called.
perform-Runs_example :
    IsOver sh small
      (perform sh small 9 run_command two_pipelines)
      (wrote (codes "b") ∷ [])
      3
      two_pipelines
perform-Runs_example =
    perform-Runs sh small 9 6 two_pipelines.cmdpending 0 3 (wrote (codes "b") ∷ []) two_pipelines
      two-Runs (omega arith) refl refl

abbrev cat_n : Cmd
cat_n = record { command = codes "cat"; rargs = codes "-n" ∷ [] }

abbrev wc : Cmd
wc = record { command = codes "wc"; rargs = [] }

cmd_array-spell_example :
    cmd_array (codes "cat") (codes "-n" ∷ codes "|" ∷ codes "wc" ∷ []) ≡ cat_n ∷ wc ∷ []
unfolding text_eq
cmd_array-spell_example = cmd_array-spell cat_n (wc ∷ []) ((refl, (refl, tt)), ((refl, tt), tt))

abbrev www : Text
www = codes "/root/www"

www-Normal : Normal www
unfolding text_eq has join
www-Normal = (
  codes "root" ∷ codes "www" ∷ [],
  refl,
  ((refl, refl, refl, refl), ((refl, refl, refl, refl), tt)),
)

resolve_path-shown_cwd_example :
    resolve_path (codes "/root") (shown_cwd (codes "/root") www) (codes "/tmp") ≡ ok www
resolve_path-shown_cwd_example =
    resolve_path-shown_cwd (codes "/root") www (codes "/tmp") www-Normal (λ q. cc)

-- A file system with one file, and a command for its path.
abbrev files : Files
files = record {
  depth = 2;
  root =
      node
        (record {
          name = [];
          kind = dir;
          uid = 0;
          gid = 0;
          size = 0;
          mode = 0;
          ctime = 0;
          target = none;
          realfile = none;
        })
        (entry (new_node (codes "a") file 0 0 0 0 0) no_entries);
  home = codes "/root";
  cwd = codes "/";
}

abbrev commands : Commands ℕ
commands = record {
  commands = (codes "/a", 7) ∷ [];
  read_txtcmd = λ path. if text_eq path (codes "/") then err is_a_directory else err file_not_found;
}

get_command-exists_example :
    (is_blank commands files (strip (codes "./a")) ≡ false)
    × ((is_some (lookup (codes "./a") commands.commands) ≡ true)
        ⊎ ((path : Text) × (find_path commands files (codes "./a") [] ≡ ok (some path))
            × (exists files.depth files.root path ≡ ok true)))
unfolding get_command find_path lookup text_eq strip strip_left strip_right resolve_path exists
    getfile walk scan enter iterate last_piece join start_pieces follow_pieces pop rstrip_slashes
    strip_slashes split contains node_at child entries
get_command-exists_example = get_command-exists commands files (codes "./a") [] (builtin 7) refl

-- A name that leads to a directory of `txtcmds` raises.
directory_raises : get_command commands files (codes "/") [] ≡ err is_a_directory
unfolding get_command find_path lookup text_eq strip strip_left strip_right resolve_path exists
    getfile walk scan enter iterate last_piece join start_pieces follow_pieces pop rstrip_slashes
    strip_slashes split contains node_at child entries
directory_raises = refl

-- The line `echo a && cat`, as the lexer reads it.
abbrev two_tokens : List Lexeme
two_tokens =
    token (codes "echo") ∷ token (codes "a") ∷ token (codes "&&") ∷ token (codes "cat") ∷ []

abbrev nested : Nested ℕ
nested = record { lex = λ line. two_tokens; run_line = λ line m. (ok (codes "out"), m) }

abbrev idle_world : World Text ℕ
idle_world = record { cmdpending = []; pp = []; machine = 0; events = [] }

line_received-commands_example :
    line_received sh small nested 9 (codes "echo a && cat") idle_world
    ≡ some (
        perform sh small 9 run_command (record idle_world {
          cmdpending = (codes "echo" ∷ codes "a" ∷ []) ∷ (codes "cat" ∷ []) ∷ [];
        }))
unfolding text_eq substitutes has_dollar_paren has starts_with
line_received-commands_example =
    line_received-commands sh small nested 9 (codes "echo a && cat") (codes "echo") (codes "a" ∷ [])
      (record { sep = both; word = codes "cat"; words = [] } ∷ []) idle_world refl
      ((refl, refl, refl, refl, refl, refl), ((refl, refl, refl, refl, refl, refl), tt))
      (((refl, refl, refl, refl, refl, refl), tt), tt)

abbrev reading : Text → Reading ℕ
reading line = record { lexer = nested.lex line; written = []; machine = idle_world.machine }

-- `$(ls)x` in a token gives the output and the `x`.
substituted :
    (do_command_substitution nested 3
      (codes "a$(ls)x")
      (record { lexer = []; written = []; machine = 0 })).0
    ≡ ok (codes "aoutoutx")
unfolding do_command_substitution scan_subst run_subshell_command full_output has_dollar_paren
    split_dollar rstrip_newlines text_eq join_spaces substitutes has starts_with
substituted = refl
