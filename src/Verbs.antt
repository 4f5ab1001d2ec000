-- ===== src/Verbs.antt =====
-- commons/index.ts and commons/classify-content.ts: the author's verbs over the session, and the
-- handles that they return. A handle is its path.
pub mod Follows
use project_builder_sdk.Base.{
  Bool, true, false, Option, none, some, List, [], ◌∷◌, ◌++◌, Text, codes, text_eq, if◌then◌else◌,
}
use project_builder_sdk.PosixPath.{dirname, basename, join}
use project_builder_sdk.Wire.{Directive}
use project_builder_sdk.Wire.Value.{JsValue, undefined, obj, end}
use project_builder_sdk.Errors.{Thrown, Result, ok, err}
use project_builder_sdk.Engine.{EngineClient}
use project_builder_sdk.Session
use project_builder_sdk.Session.{Session}
use project_builder_sdk.Directives
use project_builder_sdk.Directives.{PendingDirective, render_pending_directives}

pub data ContentState : Type 0 where
  absent empty present : ContentState

unfoldable pub classify_content : Option Text → ContentState
classify_content none = absent
classify_content (some []) = empty
classify_content (some (_ ∷ _)) = present

-- A verb of a handle that returns a handle.
pub data HandleVerb : Type 0 where
  replace_content : Text → HandleVerb
  rename move copy : Text → Option Bool → HandleVerb

-- What a handle's verb buffers.
unfoldable pub handle_directive : HandleVerb → Text → Directive
unfolding Directives.modify Directives.rename Directives.move Directives.copy
handle_directive (replace_content content) path = Directives.modify path content
handle_directive (rename new_name force) path = Directives.rename path new_name force
handle_directive (move to_dir force) path = Directives.move path to_dir force
handle_directive (copy to force) path = Directives.copy path to force

abbrev renamed_in : Text → Text → Text
renamed_in dir new_name = if text_eq dir (codes ".") then new_name else join dir new_name

-- The path of the handle that the verb returns.
unfoldable pub handle_path : HandleVerb → Text → Text
handle_path (replace_content content) path = path
handle_path (rename new_name force) path = renamed_in (dirname path) new_name
handle_path (move to_dir force) path = join to_dir (basename path)
handle_path (copy to force) path = to

-- Where the template of a create comes from.
pub data TemplateSource : Type 0 where
  inline template_file : Text → TemplateSource

abbrev options_or_empty : JsValue → JsValue
options_or_empty undefined = obj end
options_or_empty v = v

module _ (C : EngineClient) where
  -- The same for the handle of a found file, of a created one, and for the verbs that take a path.
  unfoldable pub handle_verb : HandleVerb → Text → Session C → Session C × Text
  handle_verb verb path s = (Session.buffer C (handle_directive verb path) s, handle_path verb path)

  -- A chain of verbs, each on the handle that the one before returned.
  unfoldable pub chained : List HandleVerb → Text → Session C → Session C × Text
  chained [] path s = (s, path)
  chained (verb ∷ verbs) path s =
      let (s', path') = handle_verb verb path s in chained verbs path' s'

  unfoldable pub handle_read : Text → Session C → Session C × Result (Option Text)
  handle_read path s = Session.read C path s

  unfoldable pub remove : Text → Session C → Session C
  remove path s = Session.buffer C (Directives.remove path) s

  abbrev template_of :
      (Text → JsValue → Option Bool → Result Text)
      → TemplateSource
      → JsValue
      → Option Bool
      → Result Text
  template_of read_template_file (inline template) options force = ok template
  template_of read_template_file (template_file p) options force =
      read_template_file p options force

  abbrev buffered_at : Text → Session C → Result Directive → Session C × Result Text
  buffered_at path s (err e) = (s, err e)
  buffered_at path s (ok d) = (Session.buffer C d s, ok path)

  abbrev create_with :
      Text → JsValue → Option Bool → Session C → Result Text → Session C × Result Text
  create_with path options force s (err e) = (s, err e)
  create_with path options force s (ok template) =
      buffered_at path s (Directives.create path template options force)

  -- `readTemplateFile` for this destination is an argument.
  unfoldable pub create :
      (Text → JsValue → Option Bool → Result Text)
      → Text
      → TemplateSource
      → JsValue
      → Option Bool
      → Session C
      → Session C × Result Text
  create read_template_file path source options force s =
      create_with path (options_or_empty options) force s
        (template_of read_template_file source (options_or_empty options) force)

  unfoldable pub pending_directives : Session C → List PendingDirective
  pending_directives s = render_pending_directives s.pending
