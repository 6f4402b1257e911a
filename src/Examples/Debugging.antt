-- ===== src/Examples/Debugging.antt =====
-- The portal's debug route, at concrete inputs.
use wcs_transfer.Base.{
  ◌≡◌, refl, true, false, none, some, pos, Text, codes, text_eq, arith, trim_space, to_lower,
}
use wcs_transfer.Entity.{ClientApiKey}
use wcs_transfer.Json.{end}
use wcs_transfer.Checks
use wcs_transfer.ClientKeys.{found, Session, or_default}
use wcs_transfer.ClientKeys.Writes.{get_user_client_api_key_by_id}
use wcs_transfer.ClientKeys.Authenticate.{authenticate_client_api_key, key_of}
use wcs_transfer.Portal.Debug.{Debug, answered, handed, chat_completions, debug_chat_completions}
use wcs_transfer.Portal.Debug.Handed.{is_handed, IsRouted, debug_chat_completions-handed}
use wcs_transfer.Portal.Debug.Expired.{debug_chat_completions-expired}
use wcs_transfer.Examples.{owner_key, two_keys}
use wcs_transfer.Examples.Keyrings.{plain, made, secret}

-- One model, of a provider of the type `openai`; a body is read as a request for it.
abbrev one_model : Debug
one_model = record {
  read_request = λ body.
      some (record {
        model = codes "small";
        provider_type = codes "OpenAI_compatible";
        stream = false;
      });
  decode = λ body. some end;
  encode = λ full. none;
  resolve_model_route = λ name. elim (text_eq name (codes "small")) [
    | true ↦ Checks.found two_keys
    | false ↦ Checks.no_rows
  ];
}

-- A day after the key of `made` has expired.
abbrev later : Session
later = record { now = pos 300; day_start = pos 250; month_start = pos 10; runs = λ stage. true }

abbrev tried_key : ClientApiKey
tried_key =
    or_default (key_of (get_user_client_api_key_by_id plain later made.0 (pos 9) (pos 1))) owner_key
      (λ k. k)

handed_lem :
    debug_chat_completions one_model plain later made.0
      (some (pos 9))
      (codes "1")
      (some (codes "body"))
    ≡ handed chat_completions tried_key (codes "body")
unfolding wcs_transfer.ClientKeys.nullable_int64 wcs_transfer.ClientKeys.normalize_int64_ids
    wcs_transfer.Portal.Debug.debug_chat_completions wcs_transfer.Portal.handle trim_space to_lower
handed_lem = refl

-- Another user's key is not found.
strangers_key :
    debug_chat_completions one_model plain later made.0
      (some (pos 8))
      (codes "1")
      (some (codes "body"))
    ≡ answered 2001
unfolding wcs_transfer.ClientKeys.nullable_int64 wcs_transfer.ClientKeys.normalize_int64_ids
    wcs_transfer.Portal.Debug.debug_chat_completions wcs_transfer.Portal.handle trim_space
strangers_key = refl

debug_chat_completions-handed_example :
    (tried_key.user_id ≡ pos 9)
    × (tried_key.status ≡ codes "active")
    × (text : Text) × (some (codes "body") ≡ some text)
    × IsRouted one_model plain later made.0 text chat_completions
debug_chat_completions-handed_example =
    debug_chat_completions-handed one_model plain later made.0 (pos 9) (codes "1")
      (some (codes "body")) chat_completions tried_key (codes "body") handed_lem

debug_chat_completions-expired_example :
    (is_handed (
        debug_chat_completions one_model plain later made.0
          (some (pos 9))
          (codes "1")
          (some (codes "body")))
      ≡ true)
    × (key_of (authenticate_client_api_key plain later made.0 secret).1 ≡ none)
unfolding wcs_transfer.ClientKeys.nullable_int64 wcs_transfer.ClientKeys.normalize_int64_ids
    wcs_transfer.Portal.Debug.debug_chat_completions wcs_transfer.Portal.handle trim_space to_lower
debug_chat_completions-expired_example =
    debug_chat_completions-expired one_model plain later made.0 (pos 9) (pos 1) (codes "1")
      (codes "body") secret tried_key (pos 200)
      (record { model = codes "small"; provider_type = codes "OpenAI_compatible"; stream = false })
      two_keys refl refl refl refl (omega arith) ((λ e. refl), tt) refl refl refl refl refl
