-- ===== src/Main/Tests.antt =====
-- cmd/resillm/main.go: runs of the command with small configurations.
use resillm.Common.{
  ℕ, ℤ, ◌≡◌, refl, String, true, false, Option, none, [], ◌∷◌, fixed, inl, inr, arith, lookup,
  insert,
}
use resillm.Config.{Config}
use resillm.Config.Defaults.{apply_defaults}
use resillm.Config.Tests.{written}
use resillm.Config.Vars.{has_var}
use resillm.Config.Check.{load}
use resillm.Config.Loaded.{IsValid}
use resillm.Errors.{Result, ok}
use resillm.Providers.{new_registry}
use resillm.Providers.Configured.{is_supported}
use resillm.Providers.Tests.{api, settings}
use resillm.Server.Start.{Installation, new_server}
use resillm.Main.{main}
use resillm.Main.Validated.{validated_does_not_start}

abbrev cfg : Config fixed
cfg = apply_defaults (written "sk-1" "openai")

-- The fallback is at a provider that the command does not support.
abbrev other : Config fixed
other = record (written "sk-1" "bedrock") {
  providers = ("openai", settings "") ∷ ("bedrock", settings "") ∷ [];
}

other-IsValid : IsValid fixed (apply_defaults other)
unfolding apply_defaults lookup has_var
other-IsValid = record {
  some_provider = refl;
  some_model = refl;
  routable = (((settings "", refl), ((settings "", refl), tt)), tt);
  expanded = (refl, (refl, tt));
  admin_key = inl refl;
  limits = inr (refl, omega arith);
}

abbrev dollars : ℤ → String
dollars amount = "5.00"

abbrev runs : Installation fixed ℕ ℕ ℕ → Option ℕ
runs server = none

serves :
    main api dollars runs 5 0 false "config.yaml" (inl cfg) ≡ record { status = 0; output = [] }
unfolding main new_server new_registry apply_defaults insert
serves = refl

abbrev getenv : String → String
getenv name = ""

abbrev parser : String → Result (Config fixed)
parser text = ok other

validated_does_not_start_example :
    let loaded = load getenv parser (ok "providers: ...") in
    ((main api dollars runs 5 0 true "config.yaml" loaded).status ≡ 0)
    × ((main api dollars runs 5 0 false "config.yaml" loaded).status ≡ 1)
unfolding lookup is_supported apply_defaults
validated_does_not_start_example =
    validated_does_not_start api dollars runs 5 0 getenv parser "config.yaml" "bedrock"
      "providers: ..." other refl other-IsValid (refl, (refl, tt)) refl refl
