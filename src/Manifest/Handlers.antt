-- ===== src/Manifest/Handlers.antt =====
-- packages/common-stellar/src/project/models.ts: which handlers of a manifest are accepted.
use subql_stellar.Prelude.{
  String, Option, none, some, List, [], ◌∷◌, map, Bool, true, false, not, ◌&&◌, ◌||◌, contains, ◌≡◌,
  ◌≢◌, refl, sym, ap, ◌∙◌, arith,
}
use subql_stellar.Types.{kind_text, handler_kinds}
use subql_stellar.Manifest.{HandlerClass}
use subql_stellar.Manifest.HandlerClass.{
  block_handler, transaction_handler, soroban_transaction_handler, operation_handler,
  effect_handler, event_handler,
}
use subql_stellar.Manifest.Values.{
  YamlValue, YamlFields, get_field, keys, keys_within, is_missing, text_with, is_text,
  is_plain_object, is_list,
}
use subql_stellar.Manifest.Values.YamlValue.{null, boolean, integer, fraction, text, array, object}
use subql_stellar.Manifest.Values.YamlFields.{no_fields, field}
use subql_stellar.Manifest.Decorators.{Decorator, ClassName, PropertyType, Property}
use subql_stellar.Manifest.Validation.{TestsAsDocumented, ValidatesByClass, nested_passes, all}

-- What an event filter is to hold besides its keys.
abbrev pub event_fields : YamlFields → Bool
event_fields o =
    (is_missing (get_field "contractId" o) || is_text (get_field "contractId" o))
    && (is_missing (get_field "topics" o) || is_list (get_field "topics" o))

-- The objects that each class takes for a filter. But for events only the keys are looked at, and for
-- blocks not even these.
abbrev pub takes_filter : HandlerClass → YamlFields → Bool
takes_filter block_handler o = true
takes_filter transaction_handler o = keys_within ("account" ∷ []) o
takes_filter soroban_transaction_handler o = keys_within ("account" ∷ []) o
takes_filter operation_handler o = keys_within ("type" ∷ "sourceAccount" ∷ []) o
takes_filter effect_handler o = keys_within ("type" ∷ "account" ∷ []) o
takes_filter event_handler o = keys_within ("topics" ∷ "contractId" ∷ []) o && event_fields o

abbrev pub takes_value : HandlerClass → Option YamlValue → Bool
takes_value c none = true
takes_value c (some null) = true
takes_value c (some (object o)) = takes_filter c o
takes_value c v = false

abbrev pub is_handler : Bool → HandlerClass → YamlFields → Bool
is_handler strict c fs =
    (not strict || keys_within ("filter" ∷ "kind" ∷ "handler" ∷ []) fs)
    && takes_value c (get_field "filter" fs)
    && text_with (contains (map kind_text handler_kinds)) (get_field "kind" fs)
    && is_text (get_field "handler" fs)

keys_within-all :
    (names : List String) (o : YamlFields) → keys_within names o ≡ all (contains names) (keys o)
unfolding keys_within keys
keys_within-all names no_fields = refl
keys_within-all names (field k v o) = ap (λ b. contains names k && b) (keys_within-all names o)

keys_within-keys :
    (names : List String) (o o' : YamlFields)
    → keys o ≡ keys o'
    → keys_within names o ≡ keys_within names o'
keys_within-keys names o o' same =
    keys_within-all names o ∙ ap (all (contains names)) same ∙ sym (keys_within-all names o')

takes_filter-keys :
    (c : HandlerClass) (o o' : YamlFields)
    → c ≢ event_handler
    → keys o ≡ keys o'
    → takes_filter c o ≡ takes_filter c o'
takes_filter-keys block_handler o o' other same = refl
takes_filter-keys transaction_handler o o' other same = keys_within-keys _ o o' same
takes_filter-keys soroban_transaction_handler o o' other same = keys_within-keys _ o o' same
takes_filter-keys operation_handler o o' other same = keys_within-keys _ o o' same
takes_filter-keys effect_handler o o' other same = keys_within-keys _ o o' same
takes_filter-keys event_handler o o' other same = absurd (other refl)

-- The test of a filter: it is missing, or it is an object that passes the decorators.
of_filter :
    (c : HandlerClass) (v : Option YamlValue) (passes : Bool)
    → is_missing v || is_plain_object v ≡ true
    → ((o : YamlFields) → v ≡ some (object o) → passes ≡ takes_filter c o)
    → (is_missing v || passes) ≡ takes_value c v
of_filter c none passes h on_fields = refl
of_filter c (some null) passes h on_fields = refl
of_filter c (some (boolean b)) passes h on_fields = cc h
of_filter c (some (integer n)) passes h on_fields = cc h
of_filter c (some (fraction n)) passes h on_fields = cc h
of_filter c (some (text t)) passes h on_fields = cc h
of_filter c (some (array xs)) passes h on_fields = cc h
of_filter c (some (object o)) passes h on_fields = on_fields o refl

and_true : (a : Bool) → (a && true) ≡ a
and_true true = refl
and_true false = refl

known :
    (k s m c n t : Bool)
    → (k && (((not s || k) && ((m || (c && true)) && ((n || (t && true)) && true))) && true))
      ≡ (k && ((m || c) && (n || t)))
known k s m c n t = ground arith

four :
    (a : Bool) {f f' k k' g g' : Bool}
    → f ≡ f'
    → k ≡ k'
    → g ≡ g'
    → (a && (f && ((k && true) && ((g && true) && true)))) ≡ (a && f' && k' && g')
four a p q r = ground arith

keys_within_swap :
    (s t : String) (fs : YamlFields) → keys_within (s ∷ t ∷ []) fs ≡ keys_within (t ∷ s ∷ []) fs
unfolding keys_within
keys_within_swap s t no_fields = refl
keys_within_swap s t (field k v fs) = ground (arith, keys_within_swap s t fs)

module _ (base_properties : String → List Property) (accepts : Decorator → Option YamlValue → Bool)
    (validate : ClassName → YamlFields → Bool) (strict : Bool) (tests : TestsAsDocumented accepts)
    (by_class : ValidatesByClass base_properties accepts validate strict) where
  open tests use {on_string, on_array, on_object, on_enum, on_forbid}

  listed_filter :
      (names : List String) (v : Option YamlValue) (o : YamlFields)
      → v ≡ some (object o)
      → (accepts (Decorator.forbid_non_whitelisted names) v
          && (accepts Decorator.is_object v && (true && true)))
        ≡ keys_within names o
  listed_filter names v o is_o =
      rw is_o (rw (on_forbid names o, on_object (some (object o))) (and_true (keys_within names o)))

  -- The nested validation of an event's filter.
  event_filter_lem :
      (v : Option YamlValue) (o : YamlFields)
      → v ≡ some (object o)
      → (accepts (Decorator.forbid_non_whitelisted ("topics" ∷ "contractId" ∷ [])) v
          && (true
              && (nested_passes base_properties accepts validate strict
                    (PropertyType.of_class ClassName.event_filter)
                    v
                  && true)))
        ≡ takes_filter event_handler o
  event_filter_lem v o is_o =
      let own = by_class ClassName.event_filter o in
      let contract = on_string (get_field "contractId" o) in
      let topics = on_array (get_field "topics" o) in
      let keys = keys_within_swap "contractId" "topics" o in
      rw is_o (
        rw (on_forbid ("topics" ∷ "contractId" ∷ []) o, own, contract, topics, keys)
          (known _ strict (is_missing (get_field "contractId" o)) _
            (is_missing (get_field "topics" o)) _))

  -- A handler is accepted exactly where its kind is one of the enumeration, it names a function, its filter is
  -- missing or an object that its class takes, and it has no other properties where these are forbidden.
  -- This is of filters that are missing or objects.
  pub handler_lem :
      (c : HandlerClass) (fs : YamlFields)
      → is_missing (get_field "filter" fs) || is_plain_object (get_field "filter" fs) ≡ true
      → validate (ClassName.handler_of c) fs ≡ is_handler strict c fs
  handler_lem block_handler fs h =
      by_class (ClassName.handler_of block_handler) fs
      ∙ four _
          (of_filter block_handler (get_field "filter" fs) _ h (λ o e.
            ap (λ v. accepts Decorator.is_object v && (true && true)) e
            ∙ rw (on_object (some (object o)))))
          (on_enum _ _) (on_string _)
  handler_lem transaction_handler fs h =
      by_class (ClassName.handler_of transaction_handler) fs
      ∙ four _ (of_filter transaction_handler _ _ h (listed_filter _ _)) (on_enum _ _) (on_string _)
  handler_lem soroban_transaction_handler fs h =
      by_class (ClassName.handler_of soroban_transaction_handler) fs
      ∙ four _ (of_filter soroban_transaction_handler _ _ h (listed_filter _ _)) (on_enum _ _)
          (on_string _)
  handler_lem operation_handler fs h =
      by_class (ClassName.handler_of operation_handler) fs
      ∙ four _ (of_filter operation_handler _ _ h (listed_filter _ _)) (on_enum _ _) (on_string _)
  handler_lem effect_handler fs h =
      by_class (ClassName.handler_of effect_handler) fs
      ∙ four _ (of_filter effect_handler _ _ h (listed_filter _ _)) (on_enum _ _) (on_string _)
  handler_lem event_handler fs h =
      by_class (ClassName.handler_of event_handler) fs
      ∙ four _ (of_filter event_handler _ _ h (event_filter_lem _)) (on_enum _ _) (on_string _)

  -- A handler that is not for events is accepted or not by the keys of its filter alone: what the fields hold
  -- is never looked at.
  pub handler-keys :
      (c : HandlerClass) (o o' rest : YamlFields)
      → c ≢ event_handler
      → keys o ≡ keys o'
      → validate (ClassName.handler_of c) (field "filter" (object o) rest)
        ≡ validate (ClassName.handler_of c) (field "filter" (object o') rest)
  unfolding get_field keys_within
  handler-keys c o o' rest other same =
      handler_lem c (field "filter" (object o) rest) refl
      ∙ ap
          (λ b.
            (not strict || keys_within ("filter" ∷ "kind" ∷ "handler" ∷ []) rest)
            && b
            && text_with (contains (map kind_text handler_kinds)) (get_field "kind" rest)
            && is_text (get_field "handler" rest))
          (takes_filter-keys c o o' other same)
      ∙ sym (handler_lem c (field "filter" (object o') rest) refl)
