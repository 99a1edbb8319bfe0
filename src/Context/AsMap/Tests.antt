-- ===== src/Context/AsMap/Tests.antt =====
-- Some calls on a context of the small application.
use jonson.Prelude.{List, [], ◌∷◌, ◌≡◌, refl}
use jonson.Types.{type_context}
use jonson.Value.{this_context}
use jonson.Errors.{plain}
use jonson.Context.{new_context, store_value, get_value, invalidate, already_stored, value, failure}
use jonson.Context.AsMap.{
  Op, store, drop, get, stored, refused, dropped, got, initial, replies, specified_replies,
}
use jonson.Context.AsMap.Simulation.{replies-specified}
use jonson.Scenario.{type_session, type_database, session, database}

abbrev calls : List Op
calls =
    store type_session session
    ∷ store type_session database
    ∷ get type_session
    ∷ drop (type_session ∷ type_database ∷ [])
    ∷ get type_session
    ∷ get type_context
    ∷ []

replies-calls :
    replies calls new_context
    ≡ stored
      ∷ refused (already_stored type_session)
      ∷ got (value session)
      ∷ dropped
      ∷ got (failure (plain "instance not found"))
      ∷ got (value this_context)
      ∷ []
unfolding replies new_context store_value get_value invalidate
replies-calls = refl

replies-specified_example : replies calls new_context ≡ specified_replies calls initial
replies-specified_example = replies-specified calls
