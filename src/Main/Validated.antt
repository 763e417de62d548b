-- ===== src/Main/Validated.antt =====
-- cmd/resillm/main.go with internal/providers: what -validate does not see.
use resillm.Common.{
  ℕ, String, true, false, Option, FloatOps, lookup, IsDistinct, ◌≡◌, refl, ◌⊎◌, inl,
}
use resillm.Errors.{Result, ok}
use resillm.Config.{Config}
use resillm.Config.Vars.{expand_env_vars}
use resillm.Config.Defaults.{apply_defaults}
use resillm.Config.Check.{ConfigError, load}
use resillm.Config.Loaded.{IsValid}
use resillm.Config.Accepted.{load-valid}
use resillm.Providers.{OpenAi, unsupported, new_registry}
use resillm.Providers.Configured.{is_some, is_supported, unsupported-registry}
use resillm.Server.Start.{Installation, new_server, new_with_path}
use resillm.Main.{main, serve}

module _ {F : FloatOps} {B E R W S : Type 0} (api : OpenAi F R W S) (dollars : F.Float → String)
    (run : Installation F B W S → Option E) (now : ℕ) (world : W) where
  serve-unsupported :
      (cfg : Config F) (name : String)
      → new_registry api cfg.providers ≡ unsupported name
      → (serve api dollars run now world cfg).status ≡ 1
  unfolding serve new_server new_with_path
  serve-unsupported cfg name e = rw (e, serve, new_server, new_with_path) refl

  loaded_does_not_start :
      (path name : String) (cfg : Config F) (loaded : Config F ⊎ ConfigError)
      → loaded ≡ inl cfg
      → IsDistinct cfg.providers
      → is_some (lookup name cfg.providers) ≡ true
      → is_supported name ≡ false
      → ((main api dollars run now world true path loaded).status ≡ 0)
        × ((main api dollars run now world false path loaded).status ≡ 1)
  unfolding main
  loaded_does_not_start path name cfg loaded e d k u =
      let (m, n) = unsupported-registry api name cfg.providers d k u in
      rw e (refl, serve-unsupported cfg m n)

  -- A file whose configuration is valid but for one of its providers, whose name is not supported,
  -- passes Load: with -validate the command reports it as valid and exits with 0. The server does not
  -- start with it: without -validate the command exits with 1, however Run would end.
  pub validated_does_not_start :
      (getenv : String → String) (unmarshal : String → Result (Config F)) (path name text : String)
      (parsed : Config F)
      → unmarshal (expand_env_vars getenv text) ≡ ok parsed
      → IsValid F (apply_defaults parsed)
      → IsDistinct (apply_defaults parsed).providers
      → is_some (lookup name (apply_defaults parsed).providers) ≡ true
      → is_supported name ≡ false
      → let loaded = load getenv unmarshal (ok text) in
        ((main api dollars run now world true path loaded).status ≡ 0)
        × ((main api dollars run now world false path loaded).status ≡ 1)
  validated_does_not_start getenv unmarshal path name text parsed e v d k u =
      loaded_does_not_start path name (apply_defaults parsed) _
        (load-valid F getenv unmarshal text parsed e v) d k u
