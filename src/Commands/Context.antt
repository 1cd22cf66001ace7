-- ===== src/Commands/Context.antt =====
-- What a command of cowrie/src/cowrie/commands/fs.py works on: the file system, the working directory, and what it wrote.
use honeybee_potstore.Base.{Bool, List, [], ◌∷◌, ◌++◌, Result, ok, err}
use honeybee_potstore.Base.Text.{Text}
use honeybee_potstore.Wire.Utf8.{encode}
use honeybee_potstore.Fs.Paths.{resolve_path}
use honeybee_potstore.Fs.Lookup.{exists}
use honeybee_potstore.Fs.Changes.{FileSystem, Change}
use honeybee_potstore.Shell.Stages.{Write, to_out, to_err}

pub record Context : Type 0 where
  pub system : FileSystem
  pub cwd : Text
  pub written : List Write

abbrev pub Act : Type 0 → Type 0
Act A = Context → Result A × Context

infixl 5 ◌>>=◌ ◌>>◌
abbrev pub ◌>>=◌ : {A B : Type 0} → Act A → (A → Act B) → Act B
m >>= k = λ c. elim (m c).0 [ err e ↦ (err e, (m c).1) | ok a ↦ k a (m c).1 ]

abbrev pub ◌>>◌ : {A B : Type 0} → Act A → Act B → Act B
m >> k = m >>= λ _. k

abbrev pub give : {A : Type 0} → A → Act A
give a c = (ok a, c)

abbrev pub done : Act (Unit {0})
done c = (ok tt, c)

-- A call of the file system.
abbrev pub on_fs : {A : Type 0} → Change A → Act A
on_fs f c = ((f c.system).0, record c { system = (f c.system).1 })

-- A call that may raise, in a `try`.
abbrev pub attempt : {A : Type 0} → (Context → Result A) → Act (Result A)
attempt f c = (ok (f c), c)

abbrev pub ask : {A : Type 0} → (Context → Result A) → Act A
ask f c = (f c, c)

abbrev pub say : Write → Act (Unit {0})
say w c = (ok tt, record c { written = c.written ++ w ∷ [] })

-- `errorWrite` and `write` of a text.
abbrev pub error_write : Text → Act (Unit {0})
error_write s = say (to_err (encode s))

abbrev pub write : Text → Act (Unit {0})
write s = say (to_out (encode s))

abbrev pub set_cwd : Text → Act (Unit {0})
set_cwd path c = (ok tt, record c { cwd = path })

abbrev pub resolve : Text → Context → Result Text
resolve f c = resolve_path c.system.home f c.cwd

abbrev pub exists_at : Text → Context → Result Bool
exists_at path c = exists c.system.depth c.system.fs path
