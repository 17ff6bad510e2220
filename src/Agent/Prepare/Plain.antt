-- ===== src/Agent/Prepare/Plain.antt =====
-- internal/core/agent.go: a message without files is ready at once.
use open_light.Base.{[], none, ◌≡◌, arith}
use open_light.Agent.{Agent, State, IncomingMessage}
use open_light.Agent.Prepare.{prepared, preprocess_attachments, preprocess_files, preprocess_image}

pub preprocess_attachments-text :
    {S : Type 0} (agent : Agent S) (message : IncomingMessage)
    → message.audio ≡ none
    → message.image ≡ none
    → message.document ≡ none
    → (st : State S) → preprocess_attachments agent message st ≡ (prepared [] message, st)
unfolding preprocess_attachments preprocess_files preprocess_image
preprocess_attachments-text agent message ha hi hd st = ground arith
