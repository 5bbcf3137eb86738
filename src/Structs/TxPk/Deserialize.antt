-- ===== src/Structs/TxPk/Deserialize.antt =====
-- The derived `Deserialize` of `TxPk`, as serde documents it: the members are read in document
-- order, a member of another name is skipped, a second one of the same name is an error, and at the
-- end an absent `Option` is `None` and any other absent field an error. An array in place of the
-- object gives the fields by position. Where the text goes wrong, the members before it have been read.
use chirpstack_udp_forwarder.Prelude.{
  ℕ, List, [], ◌∷◌, Option, none, some, Bool, true, false, Text, codes, text_eq, if◌then◌else◌,
}
use chirpstack_udp_forwarder.Prelude.Outcome.{ok, err, or_fail, ◌>>=◌}
use chirpstack_udp_forwarder.External.{
  External, null, arr, obj, Items, nil, cut_items, cons, Fields, end, cut, field,
}
use chirpstack_udp_forwarder.Structs.Types.{
  Value, De, Modulation, DataRate, CodeRate, invalid_type, invalid_length, missing_field, syntax,
  duplicate_field, read_string, deserialize_modulation, deserialize_data_rate,
  deserialize_code_rate,
}
use chirpstack_udp_forwarder.Structs.TxPk.Fields.{TxPk}

module _ (X : External) where
  -- The members of a struct's JSON form; `complete` fails for an array of another length.
  pub record StructFields : Type 0 where
    pub fields : Fields X.F64 X.F32
    pub complete : Bool

module _ (X : External) where
  zip_names : List Text → Items X.F64 X.F32 → StructFields X
  zip_names [] nil = record { fields = end; complete = true }
  zip_names [] (cons x xs) = record { fields = end; complete = false }
  zip_names [] cut_items = record { fields = end; complete = false }
  zip_names (n ∷ ns) nil = record { fields = end; complete = false }
  zip_names (n ∷ ns) cut_items = record { fields = cut; complete = false }
  zip_names (n ∷ ns) (cons x xs) =
      let rest = zip_names ns xs in
      record { fields = field n x rest.fields; complete = rest.complete }

  unfoldable pub struct_fields : List Text → Value X → De X (StructFields X)
  unfolding zip_names
  struct_fields names (obj fs) = ok (record { fields = fs; complete = true })
  struct_fields names (arr xs) = ok (zip_names names xs)
  struct_fields names _ = err invalid_type

  -- `Option<T>`: null is `None`.
  read_option : {A : Type 0} → (Value X → De X A) → Value X → De X (Option A)
  read_option read null = ok none
  read_option read v = do a ← read v; ok (some a)

  primitive : {A : Type 0} → (Value X → Option A) → Value X → De X A
  primitive read v = or_fail (read v) invalid_type

  -- What has been read so far.
  record Partial : Type 0 where
    imme : Option (Option Bool)
    tmst : Option (Option ℕ)
    tmms : Option (Option ℕ)
    freq : Option X.F64
    powe : Option ℕ
    modu : Option Modulation
    datr : Option DataRate
    codr : Option (Option CodeRate)
    fdev : Option (Option ℕ)
    ipol : Option (Option Bool)
    prea : Option (Option ℕ)
    payload : Option Text
    ncrc : Option (Option Bool)

module _ (X : External) where
  -- A field that was read before is an error, found before its value is read.
  once : {A : Type 0} → Option A → (Value X → De X A) → Value X → De X (Option A)
  once (some _) read v = err duplicate_field
  once none read v = do a ← read v; ok (some a)

  read_field : Text → Value X → Partial X → De X (Partial X)
  unfolding once read_option primitive text_eq read_string deserialize_modulation
  read_field n v p =
      if text_eq n (codes "imme")
      then (do
        a ← once p.imme (read_option X (primitive X X.read_bool)) v
        ok (record p { imme = a }))
      else if text_eq n (codes "tmst")
      then (do
        a ← once p.tmst (read_option X (primitive X X.read_u32)) v
        ok (record p { tmst = a }))
      else if text_eq n (codes "tmms")
      then (do
        a ← once p.tmms (read_option X (primitive X X.read_u64)) v
        ok (record p { tmms = a }))
      else if text_eq n (codes "freq")
      then (do a ← once p.freq (primitive X X.read_f64) v; ok (record p { freq = a }))
      else if text_eq n (codes "powe")
      then (do a ← once p.powe (primitive X X.read_u8) v; ok (record p { powe = a }))
      else if text_eq n (codes "modu")
      then (do a ← once p.modu (deserialize_modulation X) v; ok (record p { modu = a }))
      else if text_eq n (codes "datr")
      then (do a ← once p.datr (deserialize_data_rate X) v; ok (record p { datr = a }))
      else if text_eq n (codes "codr")
      then (do
        a ← once p.codr (read_option X (deserialize_code_rate X)) v
        ok (record p { codr = a }))
      else if text_eq n (codes "fdev")
      then (do
        a ← once p.fdev (read_option X (primitive X X.read_u32)) v
        ok (record p { fdev = a }))
      else if text_eq n (codes "ipol")
      then (do
        a ← once p.ipol (read_option X (primitive X X.read_bool)) v
        ok (record p { ipol = a }))
      else if text_eq n (codes "prea")
      then (do
        a ← once p.prea (read_option X (primitive X X.read_u8)) v
        ok (record p { prea = a }))
      else if text_eq n (codes "data")
      then (do a ← once p.payload (read_string X) v; ok (record p { payload = a }))
      else if text_eq n (codes "ncrc")
      then (do
        a ← once p.ncrc (read_option X (primitive X X.read_bool)) v
        ok (record p { ncrc = a }))
      else ok p

  read_fields : Fields X.F64 X.F32 → Partial X → De X (Partial X)
  read_fields end p = ok p
  read_fields cut p = err syntax
  read_fields (field n v rest) p = read_field n v p >>= read_fields rest

  abbrev nothing_read : Partial X
  nothing_read = record {
    imme = none;
    tmst = none;
    tmms = none;
    freq = none;
    powe = none;
    modu = none;
    datr = none;
    codr = none;
    fdev = none;
    ipol = none;
    prea = none;
    payload = none;
    ncrc = none;
  }

  -- An `Option` that is absent is `None`.
  abbrev present : {A : Type 0} → Option (Option A) → Option A
  present none = none
  present (some o) = o

  finish : Partial X → De X (TxPk X)
  finish p = do
    freq ← or_fail p.freq missing_field
    powe ← or_fail p.powe missing_field
    modu ← or_fail p.modu missing_field
    datr ← or_fail p.datr missing_field
    payload ← or_fail p.payload missing_field
    ok (record {
      imme = present p.imme;
      tmst = present p.tmst;
      tmms = present p.tmms;
      freq = freq;
      powe = powe;
      modu = modu;
      datr = datr;
      codr = present p.codr;
      fdev = present p.fdev;
      ipol = present p.ipol;
      prea = present p.prea;
      payload = payload;
      ncrc = present p.ncrc;
    })

  abbrev txpk_names : List Text
  txpk_names =
      codes "imme"
      ∷ codes "tmst"
      ∷ codes "tmms"
      ∷ codes "freq"
      ∷ codes "powe"
      ∷ codes "modu"
      ∷ codes "datr"
      ∷ codes "codr"
      ∷ codes "fdev"
      ∷ codes "ipol"
      ∷ codes "prea"
      ∷ codes "data"
      ∷ codes "ncrc"
      ∷ []

  unfoldable pub deserialize_txpk : Value X → De X (TxPk X)
  unfolding struct_fields read_fields read_field finish
  deserialize_txpk v = do
    s ← struct_fields X txpk_names v
    p ← read_fields s.fields nothing_read
    if s.complete then finish p else err invalid_length
