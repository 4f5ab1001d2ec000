-- ===== src/Directives.antt =====
-- core/directive-factory.ts: the directives of the author's verbs, and the encoding of the options of a
-- create. pending-directives/render.ts: what is pending, in the author's words.
pub mod Uncarried
pub mod Encoding
pub mod Rendering
use project_builder_sdk.Base.{
  Bool, true, false, ◌&&◌, Option, none, some, List, [], ◌∷◌, Text, codes, map,
}
use project_builder_sdk.Wire.{Directive}
use project_builder_sdk.Wire.Value.{
  JsValue, undefined, null, bool, num, str, bigint, symbol, function, arr, obj, date, map_object,
  class_instance, Elems, nil, cons, Fields, end, field,
}
use project_builder_sdk.Wire.Json.{stringify, text_or_nil}
use project_builder_sdk.Errors.{Thrown, foreign, Result, ok, err, AuthoringVerb}

-- `assertEncodable` returns, where it does not throw. A value of the model is a finite tree, so that a
-- circular reference does not occur in it.
unfoldable mutual
  pub is_encodable : JsValue → Bool
  is_encodable undefined = false
  is_encodable function = false
  is_encodable symbol = false
  is_encodable (bigint _) = false
  is_encodable null = true
  is_encodable (bool _) = true
  is_encodable (num _) = true
  is_encodable (str _) = true
  is_encodable (arr es) = elems_encodable es
  is_encodable (obj fs) = fields_encodable fs
  is_encodable (date _) = false
  is_encodable map_object = false
  is_encodable (class_instance _) = false

  pub elems_encodable : Elems → Bool
  elems_encodable nil = true
  elems_encodable (cons v es) = is_encodable v && elems_encodable es

  pub fields_encodable : Fields → Bool
  fields_encodable end = true
  fields_encodable (field k v fs) = is_encodable v && fields_encodable fs

-- A composite becomes the text of its JSON, anything else stays.
abbrev pub encode_value : JsValue → JsValue
encode_value (arr es) = str (text_or_nil (stringify (arr es)))
encode_value (obj fs) = str (text_or_nil (stringify (obj fs)))
encode_value v = v

-- `rejectOption` throws a plain `Error`.
abbrev pub reject_option : Thrown
reject_option = foreign (codes "Error")

abbrev pub push_encoded : Text → JsValue → Bool → Result Fields → Result Fields
push_encoded k v false rest = err reject_option
push_encoded k v true (ok fs) = ok (field k (encode_value v) fs)
push_encoded k v true (err e) = err e

unfoldable pub encode_fields : Fields → Result Fields
unfolding is_encodable
encode_fields end = ok end
encode_fields (field k v fs) = push_encoded k v (is_encodable v) (encode_fields fs)

abbrev pub wrapped : Result Fields → Result JsValue
wrapped (ok fs) = ok (obj fs)
wrapped (err e) = err e

-- Options that are no plain object pass as they are.
unfoldable pub encode_options : JsValue → Result JsValue
unfolding encode_fields
encode_options (obj fs) = wrapped (encode_fields fs)
encode_options v = ok v

abbrev pub created : Text → Text → Option Bool → Result JsValue → Result Directive
created p t force (ok o) = ok (Directive.create p t o force)
created p t force (err e) = err e

-- `DirectiveFactory`; the key `force` is left out where it is undefined.
unfoldable pub create : Text → Text → JsValue → Option Bool → Result Directive
unfolding encode_options
create p t options force = created p t force (encode_options options)

unfoldable pub modify : Text → Text → Directive
modify p content = Directive.modify p content

-- The author's `remove` is the wire's `delete`.
unfoldable pub remove : Text → Directive
remove p = Directive.delete p

unfoldable pub rename : Text → Text → Option Bool → Directive
rename p new_name force = Directive.rename p new_name force

unfoldable pub move : Text → Text → Option Bool → Directive
move p to_dir force = Directive.move p to_dir force

unfoldable pub copy : Text → Text → Option Bool → Directive
copy from to force = Directive.copy from to force

unfoldable pub copy_in : Text → Text → Option Bool → Directive
copy_in from to force = Directive.copy_in from to force

pub data Kind : Type 0 where
  is_rendered is_copied : Kind

pub record PendingDirective : Type 0 where
  pub verb : AuthoringVerb
  pub path : Text
  pub kind : Option Kind

-- `WIRE_TO_AUTHOR_VERB`
abbrev pub wire_to_author_verb : Directive → AuthoringVerb
wire_to_author_verb (Directive.create _ _ _ _) = AuthoringVerb.create
wire_to_author_verb (Directive.modify _ _) = AuthoringVerb.modify
wire_to_author_verb (Directive.delete _) = AuthoringVerb.remove
wire_to_author_verb (Directive.rename _ _ _) = AuthoringVerb.rename
wire_to_author_verb (Directive.move _ _ _) = AuthoringVerb.move
wire_to_author_verb (Directive.copy _ _ _) = AuthoringVerb.copy
wire_to_author_verb (Directive.copy_in _ _ _) = AuthoringVerb.copy_in

abbrev shown : AuthoringVerb → Text → Option Kind → PendingDirective
shown v p k = record { verb = v; path = p; kind = k }

unfoldable pub render_one : Directive → PendingDirective
render_one (Directive.create p t o f) =
    shown (wire_to_author_verb (Directive.create p t o f)) p (some is_rendered)
render_one (Directive.modify p c) = shown (wire_to_author_verb (Directive.modify p c)) p none
render_one (Directive.delete p) = shown (wire_to_author_verb (Directive.delete p)) p none
render_one (Directive.rename p n f) = shown (wire_to_author_verb (Directive.rename p n f)) p none
render_one (Directive.move p d f) = shown (wire_to_author_verb (Directive.move p d f)) p none
render_one (Directive.copy from to f) =
    shown (wire_to_author_verb (Directive.copy from to f)) from none
render_one (Directive.copy_in from to f) =
    shown (wire_to_author_verb (Directive.copy_in from to f)) from (some is_copied)

unfoldable pub render_pending_directives : List Directive → List PendingDirective
unfolding render_one
render_pending_directives ds = map render_one ds
