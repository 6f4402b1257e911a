-- ===== src/VertexSdk.antt =====
-- The SDK of Vertex AI as the gateway uses it (backend/internal/api/openai/gemini_vertexai.go, and
-- `getVertexAIClient` of handler.go). What a client is made of, and what it answers, are arguments.
pub mod Clients
use wcs_transfer.Base.{
  ◌⊎◌, inl, inr, Bool, ◌||◌, Option, none, some, List, ◌++◌, if◌then◌else◌, ℤ, pos, ◌+ℤ◌,
  is_positive, wrap_int64, Text, codes, to_lower, [], Table, lookup, insert, text_key_eq,
}
use wcs_transfer.Entity.{Model}
use wcs_transfer.Json.{Json, Fields}
use wcs_transfer.Log.{ChatLogState, Decoder}
use wcs_transfer.Billing.{amounts_for_usage}
use wcs_transfer.Respond.{contains}
use wcs_transfer.Gemini.{configured}

pub record VertexAiConfig : Type 0 where
  pub project_id : Text
  pub location : Text

unfoldable pub parse_vertex_ai_config : Decoder → Text → VertexAiConfig
parse_vertex_ai_config decode extra_config = record {
  project_id = elim (configured decode (codes "project_id") extra_config) [
    | none ↦ []
    | some value ↦ value
  ];
  location = elim (configured decode (codes "location") extra_config) [
    | none ↦ codes "us-central1"
    | some value ↦ value
  ];
}

pub record Usage : Type 0 where
  pub prompt_token_count : ℤ
  pub candidates_token_count : ℤ
  pub total_token_count : ℤ

-- A response or a chunk of one; `none` for a JSON text is one that cannot be encoded.
pub record Generated : Type 0 where
  pub usage : Option Usage
  pub json : Option Text

-- What the iterator of a stream gives: a chunk, or an error, which may be the end of the input.
pub data StreamItem : Type 0 where
  chunk : Generated → StreamItem
  stream_failed : Bool → Text → StreamItem

-- The SDK. `new_client` gives a client or an error; `valid_contents` says whether the contents can
-- be read as the SDK's; the configuration of a call is made from the payload.
pub record Sdk (Client : Type 0) : Type 0 where
  pub new_client : Text → Text → Text ⊎ Client
  pub valid_contents : Option Json → Bool
  pub generate_content : Client → Text → Fields → Text ⊎ Generated
  pub generate_content_stream : Client → Text → Fields → List StreamItem

-- `vertexClients`
abbrev pub Clients : Type 0 → Type 0
Clients Client = Table Text Client

abbrev pub client_key : Text → Text → Text
client_key project_id location = project_id ++ (codes ":" ++ location)

-- The second lookup under the write lock reads what the first did, unless another request stored
-- the client in between.
unfoldable pub get_vertex_ai_client :
    {Client : Type 0} → Sdk Client → Text → Text → Clients Client → Clients Client × (Text ⊎ Client)
get_vertex_ai_client sdk project_id location clients =
    elim (lookup (client_key project_id location) clients) [
      | some client ↦ (clients, inr client)
      | none ↦ elim (sdk.new_client project_id location) [
        | inl error ↦ (clients, inl (codes "init Vertex AI client: " ++ error))
        | inr client ↦ (insert (client_key project_id location) client clients, inr client)
      ]
    ]

unfoldable pub apply_vertex_ai_usage : Model → Option Usage → ChatLogState → ChatLogState
apply_vertex_ai_usage model none s = s
apply_vertex_ai_usage model (some usage) s =
    let prompt = usage.prompt_token_count in
    let completion = usage.candidates_token_count in
    let (cost, billable) = amounts_for_usage prompt completion model in
    record s {
      prompt_tokens = prompt;
      completion_tokens = completion;
      total_tokens =
          if is_positive usage.total_token_count
          then usage.total_token_count
          else wrap_int64 (prompt +ℤ completion);
      cost_amount = cost;
      billable_amount = billable;
    }

abbrev pub mentions : Text → Text → Text → Text → Bool
mentions message a b c = contains a message || contains b message || contains c message

unfoldable pub vertex_ai_error_code : Text → ℤ
unfolding contains to_lower
vertex_ai_error_code error =
    let message = to_lower error in
    if mentions message (codes "quota") (codes "rate") (codes "429")
    then pos 429
    else (if mentions message (codes "permission") (codes "403") (codes "unauthorized")
        then pos 403
        else (if contains (codes "not found") message || contains (codes "404") message
            then pos 404
            else (if contains (codes "invalid") message || contains (codes "400") message
                then pos 400
                else pos 502)))
