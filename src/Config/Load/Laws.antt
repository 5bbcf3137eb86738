-- ===== src/Config/Load/Laws.antt =====
-- What the environment does to a configuration.
use chirpstack_udp_forwarder.Prelude.{
  ℕ, suc, ◌-◌, ◌≡◌, ◌≢◌, refl, ap, ◌∙◌, arith, true, false, List, [], ◌∷◌, ◌++◌, map, Option, none,
  some, Text, All, length, ==_iff,
}
use chirpstack_udp_forwarder.Prelude.Outcome.{Outcome, ok, or_fail}
use chirpstack_udp_forwarder.Config.Toml.{Toml}
use chirpstack_udp_forwarder.Config.Load.{
  parse_config_file, read_files, starts_with, replace_from, replace, Vars, replace_vars, from_str,
  get,
}

unfoldable pub HasNoDollar : Text → Type 0
HasNoDollar s = All (λ c. c ≢ b'$') s

module _ (k v : Text) where
  starts_with-no_dollar : (c : ℕ) (s : Text) → c ≢ b'$' → starts_with (b'$' ∷ k) (c ∷ s) ≡ false
  unfolding starts_with
  starts_with-no_dollar c s h = ground arith

  replace-prefix :
      (pre s : Text)
      → HasNoDollar pre
      → replace (b'$' ∷ k) v (pre ++ s) ≡ pre ++ replace (b'$' ∷ k) v s
  unfolding HasNoDollar replace_from
  replace-prefix [] s h = refl
  replace-prefix (c ∷ pre) s (n, h) =
      rw (starts_with-no_dollar c (pre ++ s) n) (ap (λ t. c ∷ t) (replace-prefix pre s h))

  replace_from-skipped :
      (xs s : Text) → replace_from (length xs) (b'$' ∷ k) v (xs ++ s) ≡ replace (b'$' ∷ k) v s
  unfolding replace_from
  replace_from-skipped [] s = refl
  replace_from-skipped (x ∷ xs) s = replace_from-skipped xs s

  replace-fixed : (s : Text) → HasNoDollar s → replace (b'$' ∷ k) v s ≡ s
  unfolding HasNoDollar replace_from
  replace-fixed [] h = refl
  replace-fixed (c ∷ s) (n, h) =
      rw (starts_with-no_dollar c s n) (ap (λ t. c ∷ t) (replace-fixed s h))

starts_with-append : (p s : Text) → starts_with p (p ++ s) ≡ true
unfolding starts_with
starts_with-append [] s = refl
starts_with-append (c ∷ p) s = rw ((==_iff c c).1 refl) (starts_with-append p s)

suc_pred : (n : ℕ) → suc n - 1 ≡ n
suc_pred n = omega arith

replace-expanded :
    (k v pre post : Text)
    → HasNoDollar pre
    → HasNoDollar post
    → replace (b'$' ∷ k) v (pre ++ ((b'$' ∷ k) ++ post)) ≡ pre ++ (v ++ post)
unfolding replace_from starts_with
replace-expanded k v pre post p q =
    replace-prefix k v pre ((b'$' ∷ k) ++ post) p ∙ ap (λ t. pre ++ t) here
  where
    here : replace (b'$' ∷ k) v ((b'$' ∷ k) ++ post) ≡ v ++ post
    here =
        rw
          (
            starts_with-append k post,
            suc_pred (length k),
            replace_from-skipped k v k post,
            replace-fixed k v post q,
          )
          refl

replace_vars-fixed :
    (vars : List (Text × Text)) (s : Text)
    → HasNoDollar s
    → replace_vars (map (λ var. some var) vars) s ≡ ok s
unfolding replace_vars
replace_vars-fixed [] s h = refl
replace_vars-fixed ((k, v) ∷ vars) s h =
    ap (replace_vars (map (λ var. some var) vars)) (replace-fixed k v s h)
    ∙ replace_vars-fixed vars s h

replace_vars-expanded :
    (k v pre post : Text) (vars : List (Text × Text))
    → HasNoDollar (pre ++ (v ++ post))
    → HasNoDollar pre
    → HasNoDollar post
    → replace_vars (some (k, v) ∷ map (λ var. some var) vars) (pre ++ ((b'$' ∷ k) ++ post))
      ≡ ok (pre ++ (v ++ post))
unfolding replace_vars
replace_vars-expanded k v pre post vars n p q =
    ap (replace_vars (map (λ var. some var) vars)) (replace-expanded k v pre post p q)
    ∙ replace_vars-fixed vars (pre ++ (v ++ post)) n

-- Some variable of the environment is not Unicode.
abbrev pub HasNonUnicode : Vars → Type 0
HasNonUnicode [] = ⊥
HasNonUnicode (none ∷ vars) = Unit
HasNonUnicode (some var ∷ vars) = HasNonUnicode vars

module _ (T : Toml) (fs : Text → Option Text) (names : List Text) where
  -- A single `$` in what the files hold, with the name of the first variable after it, is replaced
  -- by the variable's value, if the result holds no `$`, whatever text follows the name and whatever
  -- the other variables, all of them Unicode, are: also where the name is only the beginning of the name that is written.
  pub get-expanded :
      (k v pre post : Text) (vars : List (Text × Text))
      → read_files fs names ≡ ok (pre ++ ((b'$' ∷ k) ++ post))
      → HasNoDollar (pre ++ (v ++ post))
      → HasNoDollar pre
      → HasNoDollar post
      → get T fs names (some (k, v) ∷ map (λ var. some var) vars)
        ≡ or_fail (from_str T (pre ++ (v ++ post))) parse_config_file
  unfolding get
  get-expanded k v pre post vars e n p q =
      rw (e, replace_vars-expanded k v pre post vars n p q) refl
