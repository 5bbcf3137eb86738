-- ===== src/Config/Load.antt =====
-- `Configuration::get` of src/config.rs. `fs::read_to_string` and the TOML reader are parameters.
pub mod Laws
use chirpstack_udp_forwarder.Prelude.{
  ℕ, zero, suc, ◌-◌, ◌≡◌, ◌≢◌, refl, sym, ap, ◌∙◌, arith, Bool, true, false, not, List, [], ◌∷◌,
  ◌++◌, Option, none, some, Text, All, length, ==_iff, ◌==◌, ◌&&◌, if◌then◌else◌, codes,
}
use chirpstack_udp_forwarder.Prelude.Outcome.{Outcome, ok, err, panic, or_fail, ◌>>=◌}
use chirpstack_udp_forwarder.Prelude.Options
use chirpstack_udp_forwarder.Config.{Configuration}
use chirpstack_udp_forwarder.Config.Toml.{Toml}
use chirpstack_udp_forwarder.Config.Deserialize.{deserialize_configuration}

pub data ConfigError : Type 0 where
  read_config_file parse_config_file : ConfigError

-- `content.push_str` of each file.
module _ (read_to_string : Text → Option Text) where
  unfoldable pub read_files : List Text → Outcome ConfigError Text
  read_files [] = ok []
  read_files (file_name ∷ filenames) = do
    v ← or_fail (read_to_string file_name) read_config_file
    content ← read_files filenames
    ok (v ++ content)

unfoldable pub starts_with : Text → Text → Bool
starts_with [] s = true
starts_with (p ∷ ps) [] = false
starts_with (p ∷ ps) (c ∷ s) = p == c && starts_with ps s

-- `str::replace` with a pattern that is not empty, after `skip` characters of a match.
unfoldable pub replace_from : ℕ → Text → Text → Text → Text
replace_from skip pattern value [] = []
replace_from (suc skip) pattern value (c ∷ s) = replace_from skip pattern value s
replace_from zero pattern value (c ∷ s) =
    let rest = replace_from zero pattern value s in
    let after = replace_from (length pattern - 1) pattern value s in
    if starts_with pattern (c ∷ s) then value ++ after else c ∷ rest

abbrev pub replace : Text → Text → Text → Text
replace pattern value s = replace_from zero pattern value s

-- The environment in the order of `env::vars()`: names with their values, and `none` for a variable
-- whose name or value is not Unicode, at which that iterator is documented to panic.
abbrev pub Vars : Type 0
Vars = List (Option (Text × Text))

-- One pass for each environment variable.
unfoldable pub replace_vars : Vars → Text → Outcome ConfigError Text
replace_vars [] content = ok content
replace_vars (none ∷ vars) content = panic
replace_vars (some (k, v) ∷ vars) content = replace_vars vars (replace (b'$' ∷ k) v content)

module _ (T : Toml) where
  -- `toml::from_str`
  abbrev pub from_str : Text → Option Configuration
  from_str content = Options.◌>>=◌ (T.document content) (deserialize_configuration T)

  unfoldable pub get : (Text → Option Text) → List Text → Vars → Outcome ConfigError Configuration
  get read_to_string filenames vars = do
    content ← read_files read_to_string filenames
    expanded ← replace_vars vars content
    or_fail (from_str expanded) parse_config_file
