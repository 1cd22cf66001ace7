-- ===== src/Shell/Home.antt =====
-- The working directory as the prompt shows it (cowrie/src/cowrie/shell/honeypot.py), read by resolve_path
-- (cowrie/src/cowrie/shell/fs.py).
use honeybee_potstore.Base.{
  suc, ◌+◌, ◌≡◌, ◌≢◌, refl, ap, sym, ◌∙◌, [], ◌∷◌, ◌++◌, ok, arith, ltb, length, take, drop,
  Bool-cases, inl, inr,
}
use honeybee_potstore.Base.Text.{Text, text_eq, text_eq→eq}
use honeybee_potstore.Fs.Paths.{resolve_path, expand, join}
use honeybee_potstore.Fs.Normal.{Normal, expand-root, resolve_path-fixed}
use honeybee_potstore.Shell.Prompt.{shown_cwd}

drop-prefix :
    (home cwd : Text)
    → take (length home + 1) cwd ≡ home ++ 47 ∷ []
    → (rest : Text) × (cwd ≡ home ++ 47 ∷ rest) × (drop (length home) cwd ≡ 47 ∷ rest)
drop-prefix [] [] h = cc
drop-prefix [] (c ∷ s) h =
    let q : c ≡ 47 = ground arith in (s, ap (λ x. x ∷ s) q, ap (λ x. x ∷ s) q)
drop-prefix (a ∷ home) [] h = ground arith
drop-prefix (a ∷ home) (c ∷ s) h =
    let e : suc (length home) + 1 ≡ suc (length home + 1) = omega arith in
    let h' : take (suc (length home + 1)) (c ∷ s) ≡ a ∷ (home ++ 47 ∷ []) = rw e at h in
    let head_eq : c ≡ a = cc in
    let tail_eq : take (length home + 1) s ≡ home ++ 47 ∷ [] = cc in
    let (rest, p, q) = drop-prefix home s tail_eq in
    (rest, ap (λ x. c ∷ x) p ∙ ap (λ x. x ∷ (home ++ 47 ∷ rest)) head_eq, q)

resolve_path-expand :
    (home p q cwd : Text)
    → expand home p ≡ expand home q
    → resolve_path home p cwd ≡ resolve_path home q cwd
unfolding resolve_path
resolve_path-expand home p q cwd e = rw e refl

-- What the prompt shows of a working directory below the home directory, or anywhere else but the home
-- directory itself, leads back to it from any directory.
pub resolve_path-shown_cwd :
    (home cwd here : Text)
    → Normal cwd
    → cwd ≢ home
    → resolve_path home (shown_cwd home cwd) here ≡ ok cwd
unfolding shown_cwd
resolve_path-shown_cwd home cwd here n away = elim (Bool-cases (text_eq cwd home)) [
  | inl same ↦ absurd (away (text_eq→eq cwd home same))
  | inr other ↦ elim (Bool-cases (ltb (length home + 1) (length cwd))) [
    | inl long ↦ elim (Bool-cases (text_eq (take (length home + 1) cwd) (home ++ 47 ∷ []))) [
      | inl below ↦
          let (rest, p, q) = drop-prefix home cwd (text_eq→eq _ _ below) in
          rw (other, long, below, q) (tilde rest p)
      | inr apart ↦ rw (other, long, apart) (resolve_path-fixed home here cwd n)
    ]
    | inr short ↦ rw (other, short) (resolve_path-fixed home here cwd n)
  ]
]
  where
    rooted : Normal cwd → cwd ≡ expand home cwd
    rooted (ps, q, a) = q ∙ sym (expand-root home (join ps)) ∙ ap (expand home) (sym q)

    tilde :
        (rest : Text) → cwd ≡ home ++ 47 ∷ rest → resolve_path home (126 ∷ 47 ∷ rest) here ≡ ok cwd
    tilde rest p =
        resolve_path-expand home (126 ∷ 47 ∷ rest) cwd here (sym p ∙ rooted n)
        ∙ resolve_path-fixed home here cwd n
