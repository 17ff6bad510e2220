-- ===== src/Menu/Examples.antt =====
-- The button interface at concrete presses: one skill that changes something and one that asks.
use open_light.Base.{
  refl, leb, length, not, ◌||◌, ◌&&◌, true, false, none, some, [], ◌∷◌, ◌≡◌, ◌⊎◌, if◌then◌else◌,
}
use open_light.Base.Int.{ℤ, pos, eqb_ℤ, ltb_ℤ}
use open_light.Base.Text.{
  codes, eqt, trim_space, one_of, fields, to_lower, has_prefix, trim_prefix, join,
}
use open_light.Base.Text.Search.{before_code, replace_code}
use open_light.Router.Route.{is_command}
use open_light.Router.Commands.{route_command}
use open_light.Router.Args.{normalize_route_command}
use open_light.Base.Dict.{empty, put, text_eq}
use open_light.Callback.{Action}
use open_light.Base.Time.{Time, time_sub}
use open_light.Errors.{ok}
use open_light.Registry.{Definition, Registry, new_registry, get}
use open_light.Registry.Groups.{group_services}
use open_light.Sessions.{
  start_input, new_store, store_mutation, claim_mutation, pending, advance_input, Store, InputFlow,
}
use open_light.Menu.{Menu, Desk, InputField, CallbackMessage}
use open_light.Menu.Run.{handle_pending_input, needs_consent}
use open_light.Menu.Run.Waits.{IsLast, handle_pending_input-waits}
use open_light.Menu.Run.Consent.{Ran, Free, handle_pending_input-Free}
use open_light.Auth.{new}
use open_light.Base.Unicode.{Unicode}
use open_light.Watch.World.{World}
use open_light.Agent.{Agent, State, IncomingMessage}
use open_light.Agent.Buttons.{handle_ui_pipeline, is_agent_command}
use open_light.Agent.Buttons.Escape.{escaped, handle_ui_pipeline-command}
use open_light.Agent.Texts.{is_menu_command}
use open_light.Menu.AsUi.{as_ui, as_ui-IsLawful}
use open_light.Menu.Dispatch.{map_reply_keyboard, handle_action, confirm_mutation}
use open_light.Menu.Dispatch.Consent.{Reason, handle_action-Reason}
use open_light.Menu.Dispatch.Once.{confirm_mutation-once}

-- The runes of ASCII, as far as the texts below need them.
abbrev ascii : Unicode
ascii = record {
  is_letter = λ r. leb b'a' r && leb r b'z';
  is_number = λ r. leb b'0' r && leb r b'9';
  is_digit = λ r. leb b'0' r && leb r b'9';
  is_wide = λ r. false;
}

abbrev calm : World
calm = record {
  watches = [];
  incidents = [];
  last_watch_id = 0;
  last_incident_id = 0;
  sent = [];
  messages = [];
  skill_calls = [];
  faults = [];
}

abbrev restart : Definition
restart = record {
  name = codes "service_restart";
  group = group_services;
  description = [];
  aliases = [];
  usage = [];
  examples = [];
  mutating = true;
  hidden = false;
}

abbrev service_field : InputField
service_field = record {
  name = codes "service";
  prompt = codes "Which service?";
  placeholder = [];
  validate = none;
}

abbrev one_skill : Registry
one_skill = record new_registry {
  by_name = λ name. if eqt name (codes "service restart") then some restart else none;
}

abbrev demo : Menu (Unit {0})
demo = record {
  registry = one_skill;
  quick_actions = empty;
  quick_order = [];
  describe = λ d. record { inputs = service_field ∷ []; follow_ups = []; confirm = [] };
  execute = λ call s. (ok (record { text = codes "done"; buttons = [] }), s);
  new_token = λ s. (codes "t1", s);
  error_message = λ e. codes "internal error";
  capitalize = λ t. t;
  quote = λ t. t;
}

-- A call waits under the token "t1".
abbrev waiting : Store
waiting =
    (store_mutation
      (record {
        skill_name = codes "service_restart";
        args = empty;
        user_id = pos 7;
        stored_at = 0;
      })
      (codes "t1") 100 (new_store (pos 900))).0

abbrev desk : Desk (Unit {0})
desk = record {
  sessions = waiting;
  free_chat = empty;
  ran = [];
  shown = [];
  faults = [];
  outside = tt;
}

abbrev press : CallbackMessage
press = record { chat_id = pos 5; user_id = pos 7; message_id = pos 3; raw = codes "c:t1" }

abbrev confirmation : Action
confirmation = record { kind = codes "c"; target = codes "t1"; extra = [] }

handle_action-Reason_example :
    Ran
      (Reason demo press confirmation 200 waiting)
      []
      (handle_action demo press confirmation 200 desk).1.ran
handle_action-Reason_example = handle_action-Reason demo press confirmation 200 desk

confirm_mutation-once_example :
    ((confirm_mutation demo press confirmation 200 desk).1.ran ≡ [])
    ⊎ ((confirm_mutation demo press confirmation 300
          (confirm_mutation demo press confirmation 200 desk).1).1.ran
        ≡ (confirm_mutation demo press confirmation 200 desk).1.ran)
confirm_mutation-once_example = confirm_mutation-once demo confirmation press press 200 300 desk

-- A question about the service is open in the chat.
abbrev asked_desk : Desk (Unit {0})
asked_desk = record desk {
  sessions = (start_input (pos 5) (codes "service_restart") (codes "g:services") 100 waiting).0;
}

-- The same buttons, with a skill that changes nothing.
abbrev harmless : Menu (Unit {0})
harmless = record demo {
  registry = record new_registry {
    by_name = λ name.
        if eqt name (codes "service restart")
        then some (record restart { mutating = false })
        else none;
  };
}

handle_pending_input-Free_example :
    Ran
      (Free harmless (pos 7) (pos 5))
      []
      (handle_pending_input harmless (pos 5) (pos 7) (codes "nginx") 200 asked_desk).1.ran
handle_pending_input-Free_example =
    handle_pending_input-Free harmless (pos 5) (pos 7) (codes "nginx") 200 asked_desk

-- Here the skill does run.
harmless_runs :
    length (handle_pending_input harmless (pos 5) (pos 7) (codes "nginx") 200 asked_desk).1.ran ≡ 1
unfolding handle_pending_input pending start_input store_mutation new_store time_sub get eqt join
    fields replace_code trim_prefix codes to_lower trim_space advance_input
harmless_runs = refl

abbrev open_service : InputFlow
open_service = record {
  skill_name = codes "service_restart";
  step_index = 0;
  collected = empty;
  started_at = 100;
  back_target = codes "g:services";
}

abbrev answered_flow : InputFlow
answered_flow = record open_service {
  step_index = 1;
  collected = put empty (codes "service") (codes "nginx");
  started_at = 200;
}

last_answer : IsLast demo (pos 5) (pos 7) (codes "nginx") 200 asked_desk restart answered_flow
unfolding pending start_input store_mutation new_store time_sub get eqt join fields replace_code
    trim_prefix codes to_lower trim_space advance_input
last_answer = record {
  flow = open_service;
  field = service_field;
  open_flow = refl;
  known = refl;
  asked = refl;
  valid = refl;
  advanced = refl;
  last = refl;
}

handle_pending_input-waits_example :
    ((handle_pending_input demo (pos 5) (pos 7) (codes "nginx") 200 asked_desk).1.ran ≡ [])
    × ((handle_pending_input demo (pos 5) (pos 7) (codes "nginx") 200 asked_desk).1.sessions.inputs
          (pos 5)
        ≡ none)
    × ((claimant : ℤ) (later : Time)
        → (claim_mutation
            (codes "t1")
            claimant
            later
            (handle_pending_input demo (pos 5) (pos 7) (codes "nginx") 200 asked_desk).1.sessions).1
          ≡ (if not (eqb_ℤ (pos 7) claimant) || ltb_ℤ (pos 900) (time_sub later 200)
              then none
              else some (record {
                skill_name = codes "service_restart";
                args = put empty (codes "service") (codes "nginx");
                user_id = pos 7;
                stored_at = 200;
              })))
unfolding needs_consent time_sub start_input store_mutation new_store
handle_pending_input-waits_example =
    handle_pending_input-waits demo (pos 5) (pos 7) (codes "nginx") 200 asked_desk restart
      answered_flow last_answer refl

-- The agent whose buttons are these, and whose router knows the skill "ping".
abbrev ping : Definition
ping = record restart { name = codes "ping"; mutating = false }

abbrev one_command : Registry
one_command = record new_registry {
  by_name = λ name. if eqt name (codes "ping") then some ping else none;
}

abbrev helper : Agent (Desk (Unit {0}))
helper = record {
  authorizer = new (pos 7 ∷ []) [];
  router = record { registry = one_command; classifier = none; unicode = ascii };
  registry = one_command;
  watch_service = none;
  voice_processor = none;
  image_inbox = none;
  memory = none;
  ui = some (as_ui demo 200);
  reply_transcript = false;
  sends_buttons = true;
  sends_photos = true;
  download_file = none;
  execute =
      λ skill input s. (ok (record { text = codes "pong"; buttons = []; attachments = [] }), s);
  error_text = λ e. codes "failed";
  quote = λ t. t;
  marshal = λ p. p.source_text;
  unmarshal = λ t. none;
  base_name = λ t. t;
  format_bytes = λ n. codes "many";
}

-- A question about the service is open in the chat.
abbrev asking : State (Desk (Unit {0}))
asking = record {
  messages = [];
  turns = [];
  skill_calls = [];
  settings = empty;
  executed = [];
  sent = [];
  faults = [];
  watch = calm;
  outside = record desk {
    sessions = (start_input (pos 5) (codes "service_restart") (codes "g:services") 100 waiting).0;
  };
}

abbrev ping_message : IncomingMessage
ping_message = record {
  message_id = pos 1;
  chat_id = pos 5;
  user_id = pos 7;
  text = codes "/ping";
  source = [];
  audio = none;
  image = none;
  document = none;
  is_callback = false;
}

handle_ui_pipeline-command_example : handle_ui_pipeline helper ping_message [] asking ≡ (
  none,
  record asking { outside = escaped helper (as_ui demo 200) ping_message asking.outside },
)
unfolding as_ui map_reply_keyboard eqt trim_space codes is_menu_command one_of fields to_lower
    has_prefix before_code trim_prefix is_agent_command is_command route_command
    normalize_route_command join
handle_ui_pipeline-command_example =
    handle_ui_pipeline-command helper (as_ui demo 200) ping_message [] asking refl
      (as_ui-IsLawful demo 200) refl refl refl refl
