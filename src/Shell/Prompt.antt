-- ===== src/Shell/Prompt.antt =====
-- HoneyPotShell.showPrompt (cowrie/src/cowrie/shell/honeypot.py): the text of the prompt. The configured prompt is
-- a parameter.
use honeybee_potstore.Base.{
  ℕ, ◌+◌, Bool, true, [], ◌∷◌, ◌++◌, ◌&&◌, Option, none, some, Result, ok, err, unicode_error,
  if◌then◌else◌, ◌==◌, ltb, length, take, drop,
}
use honeybee_potstore.Base.Text.{Text, Bytes, text_eq}

pub record User : Type 0 where
  pub username : Text
  pub home : Text
  pub uid : ℕ

-- The working directory, with `~` for the home directory.
unfoldable pub shown_cwd : Text → Text → Text
shown_cwd home cwd =
    let homelen = length home in
    if text_eq cwd home
    then 126 ∷ []
    else if ltb (homelen + 1) (length cwd) && text_eq (take (homelen + 1) cwd) (home ++ 47 ∷ [])
    then 126 ∷ drop homelen cwd
    else cwd

unfoldable pub prompt_text : Option Text → User → Text → Text → Text
unfolding shown_cwd
prompt_text (some configured) user hostname cwd = configured ++ 32 ∷ []
prompt_text none user hostname cwd =
    user.username
    ++ 64
      ∷ (hostname
          ++ 58
            ∷ (shown_cwd user.home cwd ++ (if user.uid == 0 then 35 ∷ 32 ∷ [] else 36 ∷ 32 ∷ [])))

-- `encode("ascii")`
unfoldable pub is_ascii : Text → Bool
is_ascii [] = true
is_ascii (c ∷ s) = ltb c 128 && is_ascii s

unfoldable pub encode_ascii : Text → Result Bytes
unfolding is_ascii
encode_ascii s = if is_ascii s then ok s else err unicode_error

unfoldable pub prompt_bytes : Option Text → User → Text → Text → Result Bytes
unfolding prompt_text encode_ascii
prompt_bytes configured user hostname cwd = encode_ascii (prompt_text configured user hostname cwd)
