-- ===== src/Lib.antt =====
-- Verification of the core of custorouter, a gateway that spreads inference requests over many
-- providers and many API keys (app/ of the repository).
--
-- The program. app/config.py holds the process's state: five built-in pools of keys with a current
-- index each, the custom providers with their pools, the status of every key, the quota that Qwen
-- Cloud keys have used up per model, the counters and the last requests. app/routers/proxy.py asks
-- it for the current key of a provider, rotates the pool when an upstream refuses a key, and logs
-- each request through `add_request_log`; app/routers/admin.py adds, removes and activates keys and
-- providers; app/main.py calls `init_state_from_db` once and `auto_reset_limited_keys` on a timer.
-- All of these run on one event loop, and none of the operations modelled here awaits between
-- reading and writing what it depends on except to send a statement, so an operation is one step on
-- the state.
--
-- The files, by the part of app/config.py that they are about:
--   Common               lists, texts, dicts and positions on a ring, over the native numbers
--   Keys/State           the module globals as one record; a statement to Postgres is recorded
--   Keys/Rotation        get_current_*_key, rotate_*_key (one text in five copies, here over the pool)
--   Keys/Qwen            get_current_qc_key_for_model, rotate_qc_key_for_model, mark_qc_model_exhausted,
--                        mark_qc_key_invalid, is_qc_model_exhausted, reset_qc_model_failures
--   Keys/Custom          get_current_custom_key, rotate_custom_key, remove_custom_key,
--                        mark_custom_rate_limited, is_custom_rate_limited
--   Keys/Add             add_api_key
--   Keys/Remove          remove_api_key, bulk_remove_api_keys
--   Keys/Active          set_active_key, reset_key_status
--   Keys/Providers       add_custom_provider, remove_provider
--   Keys/Catalog         provider_from_model, resolve_dahl_model, set_custom_provider_models,
--                        refresh_custom_provider_models, custom_provider_headers
--   Keys/Cooldown        auto_reset_limited_keys
--   Keys/Journal         add_request_log
--   Keys/Boot            init_state_from_db
--   Keys/Listing         get_masked_keys
-- and of the other files of app/:
--   Gate                 app/main.py security_and_observability_headers: the gates in front of a request,
--                        the count of running inference requests; app/config.py set_migration_drain
--   Proxy/Retry          app/routers/proxy.py _should_retry_custom_key, _is_qc_model_quota_error,
--                        _is_qc_invalid_key_error, _rotate_qc_after_failure
--   Proxy/Policy         app/routers/proxy.py _key_model_routes, _model_allowed_for_key, _resolve_alias
--   Proxy/Route          app/routers/proxy.py _run_model_route, app/redis_store.py
--                        filter_healthy_model_route_candidates, record_model_route_result
--   Proxy/Dispatch       app/routers/proxy.py _dispatch_custom_provider
--   Events               app/sse.py SSEBroadcaster
--   Worker               app/request_log_worker.py _decode, run_request_log_worker, app/database.py
--                        persist_request_log_batch
--   Translator/Tags      app/translator.py, the regular expressions of stream_as_anthropic
--   Translator/Stream    app/translator.py stream_as_anthropic: Blocks the content blocks, Text the text
--                        with its tags, Tools the tool calls, Lines the lines and errors of the upstream;
--                        Protocol is the block protocol as a machine, which the code does not contain
--   Translator/Compact   app/translator.py compact_messages
--   Translator/Turns     app/translator.py to_openai_messages, flatten_content
--   OpenAi/Tools         app/translator_openai.py openai_tools_to_anthropic,
--                        openai_tool_choice_to_anthropic, app/translator.py convert_tools and the tool
--                        choice of build_openai_request
--   OpenAi/Messages      app/translator_openai.py openai_to_anthropic_messages
--   OpenAi/Stream        app/translator_openai.py make_anthropic_to_openai_stream_converter,
--                        _map_stop_reason
--   Access/Store         app/redis_store.py, the sessions of the console and the limiter of its logins
--   Access/Login         app/routers/admin.py api_login, api_logout, require_auth
--   Access/Keys          app/database.py, the statements on router_api_keys
--   Access/Caller        app/routers/proxy.py _check_router_auth, _bill_router_key
--   Playground/Stripper  app/routers/playground.py _ThinkingStripper
-- A file's children hold its theorems, and the children called Tests its tests and examples.
--
-- Conventions. A function that changes the globals takes the state and returns its answer with the
-- new state. Where Python raises IndexError the answer is `raised index_error`. A Python dict is an
-- association list with one entry per key, and a set is a list. Instants are natural numbers of
-- microseconds in place of floating-point seconds; the cooldown settings are natural numbers, so
-- that the negative values, which the code treats like 0, are left out. Every loop is over a list or
-- over the positions of a list, except three: the inner loop of stream_as_anthropic and the loop of
-- the stripper have one more round of fuel than their buffer has characters, since each round but
-- the last cuts a tag out of it, and the repair of compact_messages has more rounds than the
-- position of the cut times the messages, since each round moves the cut back or removes a message.
-- That this fuel is enough is part of the theorems on them. Texts outside ASCII are changed by
-- `lower` and matched by `\d` as a parameter says, and so are the answer of a provider's model list
-- and the digits of a number.
--
-- The translators work on values that are decoded: a record has a field for each key that the code
-- reads, none where it is missing, and a value of another type than the code expects does not occur.
-- `json.loads` and the random ids are arguments. The generator stream_as_anthropic is a state with
-- the variables of the function and the list of what it has yielded; its client reads all of it.
--
-- Redis and the endpoint behind a route are a record of functions and a function on a state of the
-- world, of which nothing is assumed; the endpoint may raise. The answer of a login also holds the
-- passwords that were handed to the check of the password. Under the login Redis is such a record
-- too, with the documented effect of each command on a key as a hypothesis (Access/Store/Laws);
-- keys expire between requests. The upstream of a custom provider is a function of the provider and
-- the key: a dispatch is modelled as if no other request rotated the same pool meanwhile. The
-- worker's failures are an argument of each round; an insert that raises leaves the table as it
-- was, since it is one transaction. Bodies of answers stand as the text that json.dumps makes of
-- them, and JSON columns stand decoded. What runs concurrently in app/main.py is a step relation:
-- requests arrive and end in any order, and a run ends by its body, by an exception, by a
-- cancellation or before its body has begun.
--
-- Not modelled: the console output; the streaming handlers of app/routers/proxy.py; the routes of
-- app/routers/admin.py beside the login, and app/routers/playground.py; the translation of whole
-- requests and answers (the other functions of app/translator.py and app/translator_openai.py); the
-- rest of app/database.py and of app/redis_store.py; app/metrics.py and app/observability.py; the
-- fingerprint of the providers (SHA-256), the administrator's password (bcrypt) and the query for
-- the log pages.
pub mod Common
pub mod Keys
pub mod Gate
pub mod Proxy
pub mod Events
pub mod Worker
pub mod Translator
pub mod OpenAi
pub mod Access
pub mod Playground
