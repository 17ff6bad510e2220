-- ===== src/Lib.antt =====
-- A model of openLight, an assistant that watches a host and is talked to in a chat, with theorems
-- about it. Paths are from the root of the repository.
--
-- The parts and their files
--
-- Auth.antt: internal/auth/auth.go. `Authorizer` holds the allowed users and chats as lists without
-- repetition; `allowed` is Allowed, `error` is Error.
--
-- Sessions.antt: internal/telegram/ui/sessions/sessions.go. `Store` holds three maps, as functions
-- into options. A method is a function of the store that returns the new store; the lock makes each
-- call one step, the time and the random token are arguments. Sessions/Steps.antt has the sequences
-- of calls.
--
-- Agent.antt and the modules below it: internal/core, with the processor of internal/voice/voice.go.
--   Agent.antt: what the agent is wired to (`Agent`) and its state (`State`): the tables of messages, of
--   calls and of settings, the turns that memory was handed, the skills that ran, what was delivered, the
--   state of the watches, and `outside`, the state of others, which only their own operations change.
--   Agent/Texts.antt: the tests and texts of agent.go. Agent/Store.antt: what it saves, and its replies.
--   Agent/Clarify.antt: the open question of a chat, routeWithClarification and applyChatFallback.
--   Agent/Files.antt, Agent/Inbox.antt, Agent/Prepare.antt: voice, images and documents, that is
--   image_inbox.go, document_inbox.go, Process of voice.go and preprocessAttachments.
--   Agent/Buttons.antt: handleUIPipeline, on the interface `Ui` of core.ConversationUI, and the replies of
--   a skill. Agent/Handle.antt: HandleMessage and its other stages. Agent/Triples.antt and the modules
--   Keeps: what holds of the state before and behind a stage, whatever the calls of others return.
--
-- Menu.antt and the modules below it: internal/telegram/ui. Menu/Render.antt: the cards of
-- render/render.go. Menu/Keyboards.antt: keyboards/keyboards.go. Menu/Run.antt: starting a skill, the
-- input flows, the confirmations and the run of ui.go. Menu/Dispatch.antt: the handlers of a press, the
-- router of callback/router.go with the handlers that New registers, and the screens. Menu/AsUi.antt:
-- the operations of `Ui` that the buttons give the agent.
--
-- Callback.antt: internal/telegram/ui/callback/callback.go. Texts are lists of code points.
--
-- Models.antt and Errors.antt: the rows of internal/models/models.go that the engine uses, and the
-- sentinels of internal/skills/errors.go.
--
-- Memory/Chunk.antt and the modules below it: internal/memory/chunk.go, in Chunk/Tokens (the estimate of
-- tokens), Chunk/Blocks (white space, paragraphs, headings, sentences), Chunk/Pieces (a paragraph that is
-- too long, and the overlap) and Chunk (the loop of ChunkText). Memory/Gate.antt: internal/memory/gate.go.
-- Memory/Context.antt: of internal/memory/context.go, dedupeResults, dedupeFacts, sanitizeForPrompt and
-- trimToTokens.
--
-- Redact.antt: internal/utils/redact.go, what the logs may show of a request.
--
-- Registry.antt and Registry/Groups.antt: internal/skills/registry.go and groups.go. A skill is its
-- definition; the maps are functions into options.
--
-- Router.antt and the modules below it: internal/router, without its folder llm.
--   Router/Semantic.antt: semantic/normalize.go. Router/Rules.antt: rules/rules.go.
--   Router/Args.antt: the parsers of arguments in router.go. Router/Commands.antt: routeCommand, as a
--   table of its cases. Router/Route.antt: the stages of Route, and IsCommand.
--
-- Watch.antt and the modules below it: internal/watch and the part of internal/storage/sqlite that
-- it uses.
--   Watch/Spec.antt, Spec/Parse.antt: spec.go, the text of a new watch. A loop over the words behind
--   the target is `options` with the words of its switch.
--   Watch/Spec/Validate.antt: validateSpec and the two splitHostPortTarget functions of service.go,
--   with net.SplitHostPort from its documentation.
--   Watch/World.antt: the state of the engine. It holds the two tables, the outbox, the saved
--   messages and skill calls, and a list that says which of the next calls of the database or the
--   notifier fail. A method is a function of the state whose result may be an error; what it wrote
--   before the error stays written.
--   Watch/Repository.antt: the queries and statements of sqlite.go on watches and watch_incidents.
--   Watch/Evaluate.antt: evaluateWatch. Watch/Actions/Table.antt: the actions of a watch.
--   Watch/Actions.antt: their handlers and buttons in actions.go, and the skill calls.
--   Watch/Requests.antt: the parsers of confirmations and button data, and the texts of alerts.
--   Watch/Engine.antt: runCycle, processWatch and expirePendingIncidents.
--   Watch/Steps.antt: the sequences of cycles, messages and requests.
--   Watch/Handle/Watches.antt: AddWatch, ToggleWatch, DeleteWatch and ProbeWatch. Watch/Handle.antt:
--   HandleAction and handleIncidentAction.
--
-- The router asks the registry for a skill by its name or alias, and the classifier only if no stage of
-- its own decides.
--
-- The agent checks the sender with the authorizer, lets the buttons and then the watches take a message,
-- asks the router for a skill otherwise, and redacts a message in its row and in the row of the call; what
-- it answers is saved as it is. The buttons have their own store of sessions and run skills by themselves;
-- to the agent they are the interface `Ui`.
--
-- A chat's text reaches `handle_action`, which reads the alert and its watch from the tables, lets
-- Actions run a skill, and writes the alert back; the cycle reads the same tables, evaluates each
-- enabled watch with the probes, and opens and closes alerts.
--
-- Base.antt and the modules below it hold what they share: tests, lists, integers, texts, decimal
-- numbers, times and maps.
--
-- Parameters. `Numerics` has the operations on float64 and time.ParseDuration, which computes with
-- floats: a threshold is its bit pattern. `Env` has the configuration, the probes of the host, of
-- services and of the network, the registered skills, the texts of errors, utils.FormatBytes, and
-- `meanwhile`, what other goroutines do to the state while a skill runs.
--
-- `Agent` has the run of a skill, the download of a file, the archive of the memory, the conversion and
-- transcription of a voice note, the interface of the buttons, the verb %q, and the JSON of an open
-- question. `Menu` has the descriptors and the run of the skills, the random tokens and the capital letter
-- of a word, which the source computes on bytes.
--
-- `Unicode` has the classes of runes of the package unicode. `Classifier` is what the router asks last.
--
-- Bounds and fuel. Numbers are natural; ids, durations and page numbers that the program parses are
-- bounded by 64 bits in the parser, and a difference of times stops at the ends of that range. The
-- printer of decimal numbers runs on one more unit of fuel than its argument, and a number has no
-- more digits than that. `lower` knows ASCII, Latin-1 and basic Cyrillic, the alphabets of the words
-- that the program compares with. The loop of normalizeWhitespace runs on as many rounds as the text has
-- runes. A position in a text counts code points, not bytes.
--
-- Not modelled. The columns created_at and updated_at; the timeouts of contexts; logging; the ticker
-- of Run; the texts that wrap a sentinel; the branch of handleIncidentAction for an error of
-- executeIncidentAction, whose handlers return none; the second reading of the clock when
-- HandleAction calls handleIncidentAction. The ranking and rendering of the context
-- of the memory, which compute with scores and ages. The typing indicator and the duration of a call of
-- the agent, and the removal of temporary files. In the agent the clock is read once for a message. A
-- panic behind the end of the inputs of a skill, or at a page whose start wraps around to a negative
-- number, is a failed delivery. The classifier of requests, the
-- store of the memory, the skills themselves and the client of the chat are not modelled.

pub mod Agent
pub mod Base
pub mod Auth
pub mod Sessions
pub mod Callback
pub mod Models
pub mod Errors
pub mod Memory
pub mod Menu
pub mod Redact
pub mod Registry
pub mod Router
pub mod Watch
