-- ===== src/VertexSdk/Clients.antt =====
-- The clients that are kept between requests (backend/internal/api/openai/handler.go:
-- `getVertexAIClient`).
use wcs_transfer.Base.{
  ◌≡◌, refl, sym, ap, ◌⊎◌, inl, inr, false, none, some, Option-cases, [], ◌∷◌, arith, Bool-cases,
  All, Text, text_eq, text_eq_iff, is_empty, codes, ◌++◌, text_key_eq, lookup, insert, ◌==◌,
}
use mathlib.Core.Path.{subst}
use wcs_transfer.Gemini.Native.{colon, split_last}
use wcs_transfer.Gemini.Native.Paths.{split_last-append}
use wcs_transfer.VertexSdk.{Sdk, Clients, client_key, get_vertex_ai_client}

-- A location has no colon, which the names of Google's regions never have.
abbrev pub IsPlace : Text → Type 0
IsPlace location = All (λ a. (a == colon) ≡ false) location

client_key-injective :
    (p q l k : Text)
    → is_empty p ≡ false
    → is_empty q ≡ false
    → IsPlace l
    → IsPlace k
    → client_key p l ≡ client_key q k
    → (p ≡ q) × (l ≡ k)
client_key-injective p q l k hp hq hl hk e =
    ground (arith, split_last-append p l hp hl, split_last-append q k hq hk, ap split_last e)

made :
    {Client : Type 0} (result : Text ⊎ Client)
    → ((error : Text) × (result ≡ inl error)) ⊎ ((client : Client) × (result ≡ inr client))
made (inl error) = inl (error, refl)
made (inr client) = inr (client, refl)

module _ {Client : Type 0} (sdk : Sdk Client) (clients : Clients Client) (p l : Text) where
  get-failed :
      (error : Text)
      → lookup (client_key p l) clients ≡ none
      → sdk.new_client p l ≡ inl error
      → get_vertex_ai_client sdk p l clients
        ≡ (clients, inl (codes "init Vertex AI client: " ++ error))
  unfolding get_vertex_ai_client
  get-failed error h e = ground (arith, h, e)

  get-new :
      (client : Client)
      → lookup (client_key p l) clients ≡ none
      → sdk.new_client p l ≡ inr client
      → get_vertex_ai_client sdk p l clients ≡ (insert (client_key p l) client clients, inr client)
  unfolding get_vertex_ai_client
  get-new client h e = ground (arith, h, e)

  get-stored :
      (client : Client)
      → lookup (client_key p l) clients ≡ some client
      → get_vertex_ai_client sdk p l clients ≡ (clients, inr client)
  unfolding get_vertex_ai_client
  get-stored client h = ground (arith, h)

module _ {Client : Type 0} (IsFor : Client → Text → Text → Type 0) where
  -- What is stored under a key is a client for the project and the location of the key.
  abbrev Fits : Text × Client → Type 0
  Fits (key, client) =
      (project_id : Text) × (location : Text) × (key ≡ client_key project_id location)
      × (is_empty project_id ≡ false)
      × IsPlace location
      × IsFor client project_id location

  abbrev pub IsFitting : Clients Client → Type 0
  IsFitting = All Fits

  lookup-Fits :
      (key : Text) (clients : Clients Client) (client : Client)
      → IsFitting clients
      → lookup key clients ≡ some client
      → Fits (key, client)
  unfolding lookup
  lookup-Fits key [] client h e = cc
  lookup-Fits key ((j, c) ∷ clients) client (fits, h) e = elim (Bool-cases (text_eq j key)) [
    | inl same ↦
        let here : c ≡ client = cc (rw same at e) in
        subst (λ k. Fits (k, client)) ((text_eq_iff j key).0 same)
          (subst (λ c. Fits (j, c)) here fits)
    | inr other ↦ lookup-Fits key clients client h (rw other at e)
  ]

  insert-IsFitting :
      (key : Text) (clients : Clients Client) (client : Client)
      → IsFitting clients
      → Fits (key, client)
      → IsFitting (insert key client clients)
  unfolding insert
  insert-IsFitting key [] client h fits = (fits, tt)
  insert-IsFitting key ((j, c) ∷ clients) client (old, h) fits = elim (Bool-cases (text_eq j key)) [
    | inl same ↦ rw same (fits, h)
    | inr other ↦ rw other (old, insert-IsFitting key clients client h fits)
  ]

  -- From a table in which every client is for the project and the location of its key, a request
  -- with a project and with a location that has no colon gets a client for them, if it gets one,
  -- and the table stays as described. What the SDK makes for a project and a location has to be for
  -- them.
  pub get_vertex_ai_client-IsFor :
      (sdk : Sdk Client) (clients : Clients Client) (project_id location : Text)
      → ((p l : Text) (c : Client) → sdk.new_client p l ≡ inr c → IsFor c p l)
      → IsFitting clients
      → is_empty project_id ≡ false
      → IsPlace location
      → IsFitting (get_vertex_ai_client sdk project_id location clients).0
        × ((client : Client)
            → (get_vertex_ai_client sdk project_id location clients).1 ≡ inr client
            → IsFor client project_id location)
  get_vertex_ai_client-IsFor sdk clients project_id location makes h hp hl =
      elim (Option-cases (lookup (client_key project_id location) clients)) [
        | inl absent ↦ elim (made (sdk.new_client project_id location)) [
          | inl (error, failed) ↦
              rw (get-failed sdk clients project_id location error absent failed)
                (h, λ client e. cc)
          | inr (client, new) ↦
              let is_for = makes project_id location client new in
              rw (get-new sdk clients project_id location client absent new) (
                insert-IsFitting (client_key project_id location) clients client h
                    (project_id, location, refl, hp, hl, is_for),
                λ c e. subst (λ c. IsFor c project_id location) (cc e) is_for,
              )
        ]
        | inr (stored, present) ↦
            let (p, l, e, hp', hl', is_for) =
              lookup-Fits (client_key project_id location) clients stored h present in
            let (ep, el) = client_key-injective project_id p location l hp hp' hl hl' e in
            rw (get-stored sdk clients project_id location stored present) (
              h,
              λ c e'.
                  subst (λ c. IsFor c project_id location) (cc e')
                    (subst (λ l. IsFor stored project_id l) (sym el)
                      (subst (λ p. IsFor stored p l) (sym ep) is_for)),
            )
      ]
