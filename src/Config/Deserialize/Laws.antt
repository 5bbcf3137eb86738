-- ===== src/Config/Deserialize/Laws.antt =====
-- What a configuration document says, without an order of reading.
use chirpstack_udp_forwarder.Prelude.{
  ◌≡◌, ◌≢◌, ◌↔◌, ◌⊎◌, inl, inr, refl, sym, ap, ◌∙◌, true, false, Bool-cases, List, [], ◌∷◌, Option,
  none, some, Text, text_eq, text_eq_refl, text_eq_sound,
}
use chirpstack_udp_forwarder.Prelude.Options.{or_default, bound, some_injective}
use chirpstack_udp_forwarder.Config.Toml.{Shape, table, array, scalar}
use chirpstack_udp_forwarder.Config.Deserialize.{
  add_field, find_field, with_default, required, read_each, read_vec,
}

module _ {V : Type 0} where
  abbrev pub Absent : Text → List (Text × V) → Type 0
  Absent n [] = Unit
  Absent n ((k, v) ∷ ms) = (k ≢ n) × Absent n ms

  -- The only member of this name.
  abbrev pub Sole : Text → V → List (Text × V) → Type 0
  Sole n v [] = ⊥
  Sole n v ((k, w) ∷ ms) = ((k ≡ n) × (w ≡ v) × Absent n ms) ⊎ ((k ≢ n) × Sole n v ms)

  -- The values of an array, one by one.
  abbrev pub Each : {A : Type 0} → (V → A → Type 0) → List V → List A → Type 0
  Each Reads [] [] = Unit
  Each Reads [] (a ∷ xs) = ⊥
  Each Reads (v ∷ vs) [] = ⊥
  Each Reads (v ∷ vs) (a ∷ xs) = Reads v a × Each Reads vs xs

  abbrev pub IsVec : {A : Type 0} → (V → A → Type 0) → Shape V → List A → Type 0
  IsVec Reads (array vs) xs = Each Reads vs xs
  IsVec Reads _ xs = ⊥

  module _ {A : Type 0} (n : Text) (Reads : V → A → Type 0) where
    abbrev pub IsRequired : List (Text × V) → A → Type 0
    IsRequired ms a = (v : V) × Sole n v ms × Reads v a

    -- What the field's member reads as, or the default if there is none.
    abbrev pub IsField : A → List (Text × V) → A → Type 0
    IsField d ms a = IsRequired ms a ⊎ (Absent n ms × (a ≡ d))

  module _ {A : Type 0} (n : Text) (read : V → Option A) where
    Found : List (Text × V) → Option A → Type 0
    Found ms none = Absent n ms
    Found ms (some a) = IsRequired n (λ v b. read v ≡ some b) ms a

    added :
        (k : Text) (v : V) (ms : List (Text × V)) (r : Option (Option A)) (o : Option A)
        → k ≡ n
        → ((p : Option A) → r ≡ some p → Found ms p)
        → add_field n read v r ≡ some o
        → Found ((k, v) ∷ ms) o
    unfolding add_field Found
    added k v ms none o e h q = cc
    added k v ms (some (some b)) o e h q = cc
    added k v ms (some none) none e h q = let (a, r, s) = bound (read v) _ none q in cc
    added k v ms (some none) (some b) e h q =
        let (a, r, s) = bound (read v) _ (some b) q in (v, inl (e, refl, h none refl), cc)

    differs : (k : Text) → k ≢ n → text_eq k n ≡ false
    differs k h = elim (Bool-cases (text_eq k n)) [
      | inl e ↦ absurd (h (text_eq_sound k n e))
      | inr e ↦ e
    ]

    same : (k : Text) → text_eq k n ≡ false → k ≢ n
    same k e x = let found : text_eq k n ≡ true = rw x (text_eq_refl n) in cc

    skipped :
        (k : Text) (v : V) (ms : List (Text × V)) (o : Option A)
        → k ≢ n
        → Found ms o
        → Found ((k, v) ∷ ms) o
    unfolding Found
    skipped k v ms none h f = (h, f)
    skipped k v ms (some a) h (w, s, r) = (w, inr (h, s), r)

    field-Found : (ms : List (Text × V)) (o : Option A) → find_field n read ms ≡ some o → Found ms o
    unfolding find_field Found
    field-Found [] none q = tt
    field-Found [] (some a) q = cc
    field-Found ((k, v) ∷ ms) o q = elim (Bool-cases (text_eq k n)) [
      | inl e ↦
          added k v ms (find_field n read ms) o (text_eq_sound k n e) (field-Found ms) (rw e at q)
      | inr e ↦ skipped k v ms o (same k e) (field-Found ms o (rw e at q))
    ]

    field-Absent : (ms : List (Text × V)) → Absent n ms → find_field n read ms ≡ some none
    unfolding find_field
    field-Absent [] h = refl
    field-Absent ((k, v) ∷ ms) (h, hs) = rw (differs k h) (field-Absent ms hs)

    field-Sole :
        (ms : List (Text × V)) (v : V) (a : A)
        → Sole n v ms
        → read v ≡ some a
        → find_field n read ms ≡ some (some a)
    unfolding find_field add_field
    field-Sole [] v a h r = absurd h
    field-Sole ((k, w) ∷ ms) v a (inl (e, f, hs)) r =
        rw (e, text_eq_refl n, f, field-Absent ms hs, r) refl
    field-Sole ((k, w) ∷ ms) v a (inr (h, s)) r = rw (differs k h) (field-Sole ms v a s r)

  module _ {A : Type 0} (read : V → Option A) (Reads : V → A → Type 0)
      (reads : (v : V) (a : A) → (read v ≡ some a) ↔ Reads v a) where
    pub required_iff :
        (n : Text) (ms : List (Text × V)) (a : A)
        → (required n read ms ≡ some a) ↔ IsRequired n Reads ms a
    unfolding required Found
    required_iff n ms a = (
      λ h.
          let (o, e, f) = bound (find_field n read ms) _ a h in
          let (v, s, r) = field-Found n read ms (some a) (e ∙ ap some f) in (v, s, (reads v a).0 r),
      λ (v, s, r). rw (field-Sole n read ms v a s ((reads v a).1 r)) refl,
    )

    defaulted :
        (n : Text) (d : A) (ms : List (Text × V)) (o : Option A) (a : A)
        → Found n read ms o
        → or_default o d ≡ a
        → IsField n Reads d ms a
    unfolding Found
    defaulted n d ms none a h e = inr (h, sym e)
    defaulted n d ms (some b) a (v, s, r) e = inl (v, s, (reads v a).0 (r ∙ ap some e))

    pub with_default_iff :
        (n : Text) (d : A) (ms : List (Text × V)) (a : A)
        → (with_default n read d ms ≡ some a) ↔ IsField n Reads d ms a
    unfolding with_default
    with_default_iff n d ms a = (
      λ h.
          let (o, e, f) = bound (find_field n read ms) _ a h in
          defaulted n d ms o a (field-Found n read ms o e) (some_injective _ _ f),
      λ f. elim f [
        | inl (v, s, r) ↦ rw (field-Sole n read ms v a s ((reads v a).1 r)) refl
        | inr (h, e) ↦ rw (field-Absent n read ms h, e) refl
      ],
    )

    read_each_iff : (vs : List V) (xs : List A) → (read_each read vs ≡ some xs) ↔ Each Reads vs xs
    unfolding read_each
    read_each_iff [] [] = (λ h. tt, λ h. refl)
    read_each_iff [] (a ∷ xs) = (λ h. cc, λ h. absurd h)
    read_each_iff (v ∷ vs) [] = (
      λ h.
          let (a, e, f) = bound (read v) _ [] h in
          let (rest, g, i) = bound (read_each read vs) _ [] f in cc,
      λ h. absurd h,
    )
    read_each_iff (v ∷ vs) (a ∷ xs) = (
      λ h.
          let (b, e, f) = bound (read v) _ (a ∷ xs) h in
          let (rest, g, i) = bound (read_each read vs) _ (a ∷ xs) f in
          let q : b ≡ a = cc in
          let qs : rest ≡ xs = cc in
          ((reads v a).0 (e ∙ ap some q), (read_each_iff vs xs).0 (g ∙ ap some qs)),
      λ (r, rs). rw ((reads v a).1 r, (read_each_iff vs xs).1 rs) refl,
    )

    pub read_vec_iff : (s : Shape V) (xs : List A) → (read_vec read s ≡ some xs) ↔ IsVec Reads s xs
    unfolding read_vec
    read_vec_iff (table ms) xs = (λ h. cc, λ h. absurd h)
    read_vec_iff (array vs) xs = read_each_iff vs xs
    read_vec_iff scalar xs = (λ h. cc, λ h. absurd h)
