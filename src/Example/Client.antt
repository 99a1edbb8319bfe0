-- ===== src/Example/Client.antt =====
-- jonson.procedure-calls.gen.go and jonson.providers.gen.go of the example: the calls of its
-- procedures and the accessors of its types, as the generator has written them, and the set-up of its
-- tests (account_test.go).
use jonson.Prelude.{true, none, some, [], ◌==◌, if◌then◌else◌}
use jonson.Text.{Text, codes}
use jonson.Types.{GoType, ptr_to_struct}
use jonson.Value.{
  Value, nil_value, reply, fields, custom, rpc_http_method_get, rpc_http_method_post,
}
use jonson.Validate.{Result, ok, ◌>>=◌}
use jonson.Context.{Fallible}
use jonson.Context
use jonson.Context.Prog.{Prog, done, panic, require, call_method}
use jonson.Context.Run.{Providers}
use jonson.Factory.Scan.{register_provider, types_of}
use jonson.Factory.Make.{new_factory}
use jonson.Method.{MissingValidationLevel, new_method_handler}
use jonson.Method.Register.{register_system}
use jonson.Example.{
  World, Application, type_private, type_public, type_account, methods, authentication_provider,
}

abbrev pub type_me_result : GoType
type_me_result = record { id = 45; name = "*account.MeV1Result"; kind = ptr_to_struct }

abbrev pub type_profile_result : GoType
type_profile_result = record { id = 46; name = "*account.GetProfileV1Result"; kind = ptr_to_struct }

module _ (w : World) where
  -- The results of a call: an error alone, nil, or a struct of strings, of which the model does not
  -- tell the asserted type from another one.
  abbrev pub assert_result : GoType → Value → Prog
  assert_result t (reply v (some e)) = done (reply nil_value (some e))
  assert_result t (reply nil_value none) = done (reply nil_value none)
  assert_result t (reply (fields fs) none) = done (reply (fields fs) none)
  assert_result t v = panic (w.conversion t v)

  -- `MeV1(ctx)`
  unfoldable pub call_me_v1 : Prog
  call_me_v1 =
      call_method
        (record {
          method = codes "account/me.v1";
          http_method = rpc_http_method_get;
          payload = Context.value (codes "null");
          bindata = none;
        })
        (assert_result type_me_result)

  -- `GetProfileV1(ctx, p)`, for the JSON of `p`
  unfoldable pub call_get_profile_v1 : Fallible Text → Prog
  call_get_profile_v1 p =
      call_method
        (record {
          method = codes "account/get-profile.v1";
          http_method = rpc_http_method_post;
          payload = p;
          bindata = none;
        })
        (assert_result type_profile_result)

  -- The generated accessors assert the type before they look for nil. The values of the
  -- example's types carry the identity of their type.
  abbrev pub assert_custom : GoType → Value → Prog
  assert_custom t (custom c) =
      if c.ident == t.id then done (custom c) else panic (w.conversion t (custom c))
  assert_custom t v = panic (w.conversion t v)

  unfoldable pub require_private : Prog
  require_private = require type_private (assert_custom type_private)

  unfoldable pub require_public : Prog
  require_public = require type_public (assert_custom type_public)

  abbrev pub with_system : Providers → Result Application
  with_system ps =
      register_system (types_of ps) type_account (codes "Account") (methods w [])
        (new_method_handler (MissingValidationLevel.other []))
      >>= λ m. ok (record { providers = ps; handler = m })

  -- `TestAccount` up to its runs
  unfoldable pub test_application : Result Application
  unfolding new_factory register_provider register_system new_method_handler types_of
  test_application = new_factory [] [] >>= λ made.
      register_provider true (authentication_provider w) made.factory.providers >>= with_system
