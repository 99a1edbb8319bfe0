-- ===== src/Factory/Tests.antt =====
-- The registration of a provider in the small application.
use jonson.Prelude.{true, List, [], ◌∷◌, ◌≡◌, refl}
use jonson.Text.{codes}
use jonson.Types.{type_context}
use jonson.Validate.{ok}
use jonson.Context.Prog.{done}
use jonson.Factory.{ProviderFunc, register_provider_func}
use jonson.Factory.Scan.{
  ProviderMethod, register_provider, ProvidesAll, register_provider-ProvidesAll,
}
use jonson.Scenario.{type_database, providers, type_session, session}

abbrev provide_session : ProviderFunc
provide_session = record {
  is_func = true;
  ins = type_context ∷ [];
  outs = type_session ∷ [];
  code = done session;
}

session_registered :
    register_provider_func provide_session providers ≡ ok ((type_session, done session) ∷ providers)
unfolding register_provider_func
session_registered = refl

-- A provider with one method that provides and one that does not.
abbrev methods : List ProviderMethod
methods =
    record {
      name = codes "NewSession";
      ins = type_database ∷ type_context ∷ [];
      outs = type_session ∷ [];
      code = done session;
    }
    ∷ record { name = codes "Close"; ins = []; outs = []; code = done session }
    ∷ []

methods_registered : register_provider true methods [] ≡ ok ((type_session, done session) ∷ [])
unfolding register_provider
methods_registered = refl

register_provider-ProvidesAll_example : ProvidesAll methods [] ((type_session, done session) ∷ [])
register_provider-ProvidesAll_example =
    register_provider-ProvidesAll true methods [] ((type_session, done session) ∷ [])
      methods_registered
