-- ===== src/Watch/Handle/Scope.antt =====
-- internal/watch/service.go: what a message of a chat can reach.
use mathlib.Core.Path.{subst}
use open_light.Base.{
  ℕ, ◌==◌, Bool, true, false, Option, none, some, List, [], ◌∷◌, ◌++◌, ◌≡◌, refl, sym, ap, ◌∙◌, All,
  ==_iff,
}
use open_light.Base.Int.{ℤ}
use open_light.Base.Text.{Text}
use open_light.Base.Time.{Time}
use open_light.Models.{WatchIncident}
use open_light.Watch.World.{World, Sent}
use open_light.Watch.Env.{Env}
use open_light.Watch.Repository.{set_columns, replace_incident}
use open_light.Watch.Handle.{handle_action}
use open_light.Watch.Handle.Keeps.{Closed}
use open_light.Watch.Handle.Replies.{handle_action-Keeps}

-- The columns by which an incident is told apart: its id, its watch and its chat.
unfoldable pub row_keys : List WatchIncident → List (ℕ × ℕ × ℤ)
row_keys [] = []
row_keys (i ∷ is) = (i.id, i.watch_id, i.chat_id) ∷ row_keys is

-- Every message that was sent behind `before` went to the chat.
unfoldable pub SentTo : ℤ → List Sent → List Sent → Type 0
SentTo chat before after =
    (new : List Sent) × (after ≡ new ++ before) × All (λ s. s.chat_id ≡ chat) new

pub record Within (chat : ℤ) (before after : World) : Type 0 where
  pub sent_to : SentTo chat before.sent after.sent
  pub same_watches : after.watches ≡ before.watches
  pub same_keys : row_keys after.incidents ≡ row_keys before.incidents

pub row_keys-replace_incident :
    (i : WatchIncident) (is : List WatchIncident) {js : List WatchIncident}
    → replace_incident i is ≡ some js
    → row_keys js ≡ row_keys is
unfolding row_keys replace_incident set_columns
row_keys-replace_incident i [] e = cc
row_keys-replace_incident i (j ∷ is) {js} e =
    step (replace_incident i is) (λ ks h. row_keys-replace_incident i is h) (j.id == i.id) refl e
  where
    step :
        (r : Option (List WatchIncident))
        → ((ks : List WatchIncident) → r ≡ some ks → row_keys ks ≡ row_keys is)
        → (b : Bool) → (j.id == i.id) ≡ b
        → elim b as (λ _. Option (List WatchIncident)) [
          | true ↦ some (set_columns j i ∷ is)
          | false ↦ elim r [ none ↦ none | some ks ↦ some (j ∷ ks) ]
        ]
          ≡ some js
        → row_keys js ≡ row_keys (j ∷ is)
    step r hr true hb h = let q = (==_iff j.id i.id).0 hb in cc
    step none hr false hb h = cc
    step (some ks) hr false hb h = let q = hr ks refl in cc

module _ (env : Env) (chat : ℤ) (before : World) (alone : (w : World) → env.meanwhile w ≡ w) where
  Within-Closed : Closed env chat (Within chat before)
  unfolding SentTo
  Within-Closed = record {
    faults = record {
      free = λ w fs p. record {
        sent_to = p.sent_to;
        same_watches = p.same_watches;
        same_keys = p.same_keys;
      };
    };
    answered = λ w s e p.
        let (new, eq, to) = p.sent_to in
        record {
          sent_to = (s ∷ new, ap (λ r. s ∷ r) eq, (e, to));
          same_watches = p.same_watches;
          same_keys = p.same_keys;
        };
    noted = λ w m e p. record {
      sent_to = p.sent_to;
      same_watches = p.same_watches;
      same_keys = p.same_keys;
    };
    called = λ w c p. record {
      sent_to = p.sent_to;
      same_watches = p.same_watches;
      same_keys = p.same_keys;
    };
    edited = λ w i is e p. record {
      sent_to = p.sent_to;
      same_watches = p.same_watches;
      same_keys = row_keys-replace_incident i w.incidents e ∙ p.same_keys;
    };
    meanwhile = λ w p. subst (Within chat before) (sym (alone w)) p;
  }

  -- Whatever a user writes in a chat and whatever call fails on the way: handling the text sends
  -- messages to that chat only, leaves every watch as it was, and neither creates nor removes an
  -- incident nor gives one another id, watch or chat. Nothing else writes during a skill call.
  pub handle_action-Within :
      (user : ℤ) (text : Text) (now : Time)
      → Within chat before (handle_action env chat user text now before).1
  unfolding SentTo
  handle_action-Within user text now =
      (handle_action-Keeps Within-Closed user text now).keeps before
        (record { sent_to = ([], refl, tt); same_watches = refl; same_keys = refl })
