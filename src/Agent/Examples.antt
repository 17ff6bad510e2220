-- ===== src/Agent/Examples.antt =====
-- The agent at concrete messages: one skill, one allowed user.
use open_light.Base.{
  true, false, Option, none, some, [], ◌∷◌, ◌++◌, ◌≡◌, refl, leb, if◌then◌else◌, ◌&&◌,
}
use open_light.Base.Int.{ℤ, pos}
use open_light.Base.Text.{
  Text, codes, eqt, trim_space, has_prefix, fields, one_of, join, to_lower, trim_prefix,
}
use open_light.Base.Text.Search.{cut}
use open_light.Base.Time.{time_sub}
use open_light.Base.Dict.{empty}
use open_light.Base.Unicode.{Unicode}
use open_light.Errors.{ok}
use open_light.Redact.{redact_sensitive_text}
use open_light.Auth.{new, allowed}
use open_light.Registry.{Definition, Registry, new_registry}
use open_light.Registry.Groups.{group_chat}
use open_light.Router.Args.{normalize_route_command}
use open_light.Router.Commands.{route_command}
use open_light.Router.Route.{route}
use open_light.Watch.World.{World}
use open_light.Agent.{Agent, State, IncomingMessage, PendingClarification}
use open_light.Agent.Clarify.{
  clarification_for, load_pending_clarification, save_pending_clarification,
  route_with_clarification,
}
use open_light.Agent.Clarify.Questions.{route_with_clarification-settled, load-save}
use open_light.Agent.Handle.{handle_message}
use open_light.Agent.Handle.Skills.{RanOne, handle_message-RanOne}
use open_light.Agent.Handle.Redacts.{IsClean, handle_message-IsClean}
use open_light.Agent.Handle.Denied.{Untouched, SentOne, access_denied_text, handle_message-denied}

-- The runes of ASCII, as far as the texts below need them.
abbrev ascii : Unicode
ascii = record {
  is_letter = λ r. leb b'a' r && leb r b'z';
  is_number = λ r. leb b'0' r && leb r b'9';
  is_digit = λ r. leb b'0' r && leb r b'9';
  is_wide = λ r. false;
}

abbrev ping : Definition
ping = record {
  name = codes "ping";
  group = group_chat;
  description = [];
  aliases = [];
  usage = [];
  examples = [];
  mutating = false;
  hidden = false;
}

abbrev one_skill : Registry
one_skill = record new_registry {
  by_name = λ name. if eqt name (codes "ping") then some ping else none;
}

-- Two texts around a line feed.
abbrev pair_of : Option (Text × Text) → Option PendingClarification
pair_of none = none
pair_of (some (s, q)) = some (record { source_text = s; question = q })

abbrev demo : Agent (Unit {0})
demo = record {
  authorizer = new (pos 7 ∷ []) [];
  router = record { registry = one_skill; classifier = none; unicode = ascii };
  registry = one_skill;
  watch_service = none;
  voice_processor = none;
  image_inbox = none;
  memory = some (λ file s. (ok false, s));
  ui = none;
  reply_transcript = false;
  sends_buttons = true;
  sends_photos = true;
  download_file = none;
  execute =
      λ skill input s. (ok (record { text = codes "pong"; buttons = []; attachments = [] }), s);
  error_text = λ e. codes "failed";
  quote = λ t. b'"' ∷ t ++ b'"' ∷ [];
  marshal = λ p. p.source_text ++ b'\n' ∷ p.question;
  unmarshal = λ t. pair_of (cut t (codes "\n"));
  base_name = λ t. t;
  format_bytes = λ n. codes "many";
}

abbrev calm : World
calm = record {
  watches = [];
  incidents = [];
  last_watch_id = 0;
  last_incident_id = 0;
  sent = [];
  messages = [];
  skill_calls = [];
  faults = [];
}

abbrev start : State (Unit {0})
start = record {
  messages = [];
  turns = [];
  skill_calls = [];
  settings = empty;
  executed = [];
  sent = [];
  faults = [];
  watch = calm;
  outside = tt;
}

-- "/ping" of a user.
abbrev from_user : ℤ → IncomingMessage
from_user user = record {
  message_id = pos 1;
  chat_id = pos 5;
  user_id = user;
  text = codes "/ping";
  source = [];
  audio = none;
  image = none;
  document = none;
  is_callback = false;
}

handle_message-RanOne_example :
    RanOne demo.authorizer
      (pos 7)
      (pos 5)
      []
      (handle_message demo (from_user (pos 7)) 0 start).1.executed
handle_message-RanOne_example = handle_message-RanOne demo (from_user (pos 7)) 0 start

handle_message-IsClean_example : IsClean (handle_message demo (from_user (pos 7)) 0 start).1
handle_message-IsClean_example =
    handle_message-IsClean demo (from_user (pos 7)) 0 start
      (record { messages = tt; turns = tt; calls = tt })

handle_message-denied_example :
    Untouched start (handle_message demo (from_user (pos 8)) 0 start).1
    × SentOne (pos 5) access_denied_text [] (handle_message demo (from_user (pos 8)) 0 start).1.sent
unfolding allowed new
handle_message-denied_example =
    handle_message-denied demo (from_user (pos 8)) refl refl refl refl 0 start

route_with_clarification-settled_example :
    (load_pending_clarification demo
      (pos 5)
      0
      (route_with_clarification demo (from_user (pos 7)) 0 start).1).0
    ≡ none
unfolding route trim_space codes has_prefix fields route_command one_of normalize_route_command join
    to_lower trim_prefix
route_with_clarification-settled_example =
    route_with_clarification-settled demo (from_user (pos 7)) 0 start refl refl

load-save_example :
    (load_pending_clarification demo
      (pos 5)
      0
      (save_pending_clarification demo (pos 5) (codes "restart") (codes "Which?") 0 start).1).0
    ≡ some (record { source_text = codes "restart"; question = codes "Which?" })
unfolding cut clarification_for trim_space redact_sensitive_text codes fields one_of join to_lower
    trim_prefix time_sub
load-save_example =
    load-save demo (pos 5) (codes "restart") (codes "Which?") 0 0 start refl refl refl
