-- ===== src/Codex/Rpc/Answers.antt =====
-- Every request is answered.
use zephyr_applications.Common.{
  ◌⊎◌, ℕ, ◌<◌, ◌≡◌, refl, ap, ◌∙◌, false, leb, List, [], ◌++◌, Option, none, some, length,
  length-append, take-length, arith, Bool-cases, inl, inr, Option-cases,
}
use zephyr_applications.Common.Text.{codes}
use zephyr_applications.Codex.Json.{codex_json_member, codex_json_str_eq}
use zephyr_applications.Codex.Json.Syntax.{object, Fields, print, IsValue}
use zephyr_applications.Codex.Json.Member.{first_field, codex_json_member-print}
use zephyr_applications.Codex.Rpc.{
  send_result, echoed_id, respond, handle_request, version_result, status_result, unknown_method,
  is_acknowledged,
}

-- A response to a request: the id, and either a result or an error, whole.
abbrev pub Answers : List ℕ → List ℕ → Type 0
Answers id response =
    (body : List ℕ) × (response ≡ codes "{\"id\":" ++ (id ++ body)) × (length response < 256)

echoed_small : (raw : Option (List ℕ)) → length (echoed_id raw) < 24
unfolding echoed_id
echoed_small none = ground arith
echoed_small (some raw_id) = ground arith

send_result_lem :
    (id result : List ℕ)
    → length id < 24
    → length result < 128
    → (response : List ℕ) × (send_result id result ≡ some response) × Answers id response
unfolding send_result
send_result_lem id result small short =
    let body = codes ",\"result\":" ++ (result ++ codes "}") in
    let response = codes "{\"id\":" ++ (id ++ body) in
    let len : length response < 256 =
      omega (arith, length-append id body, length-append result (codes "}")) in
    (response, rw (over (length response) len), (body, refl, len))
  where
    over : (n : ℕ) → n < 256 → leb 256 n ≡ false
    over n h = ground arith

respond_lem :
    (method : Option (List ℕ)) (id : List ℕ)
    → length id < 24
    → (response : List ℕ) × (respond method id ≡ some response) × Answers id response
unfolding respond
respond_lem method id small = elim (Bool-cases (codex_json_str_eq method (codes "sys.version"))) [
  | inl e ↦ rw e (send_result_lem id version_result small (ground arith))
  | inr e ↦ elim (Bool-cases (codex_json_str_eq method (codes "device.status"))) [
    | inl f ↦ rw (e, f) (send_result_lem id status_result small (ground arith))
    | inr f ↦ elim (Bool-cases (is_acknowledged method)) [
      | inl g ↦ rw (e, f, g) (send_result_lem id (codes "{\"ok\":true}") small (ground arith))
      | inr g ↦
          let response = codes "{\"id\":" ++ (id ++ unknown_method) in
          let len = length-append id unknown_method in
          rw (e, f, g)
            (
              response,
              ap some (take-length 127 response (omega (arith, len))),
              (unknown_method, refl, omega (arith, len)),
            )
    ]
  ]
]

handle_none :
    (json : List ℕ) → codex_json_member json (codes "method") ≡ none → handle_request json ≡ none
unfolding handle_request
handle_none json e = ground (arith, e)

handle_some :
    (json m : List ℕ)
    → codex_json_member json (codes "method") ≡ some m
    → handle_request json ≡ respond (some m) (echoed_id (codex_json_member json (codes "id")))
unfolding handle_request
handle_some json m e = ground (arith, e)

-- Every object that has a method is answered, once and with the request's id, or with null if its
-- text has 24 bytes or more or if there is none: the answer is never dropped or cut. An object
-- without a method is not answered.
pub handle_request-print :
    (fs : Fields)
    → IsValue (object fs)
    → ((first_field (codes "method") fs ≡ none) × (handle_request (print (object fs) []) ≡ none))
      ⊎ ((response : List ℕ) × (handle_request (print (object fs) []) ≡ some response)
          × Answers (echoed_id (first_field (codes "id") fs)) response)
handle_request-print fs h =
    let json = print (object fs) [] in
    let method = codex_json_member-print (codes "method") [] fs tt h in
    let id = codex_json_member-print (codes "id") [] fs tt h in
    elim (Option-cases (first_field (codes "method") fs)) [
      | inl e ↦ inl (e, handle_none json (method ∙ e))
      | inr (m, e) ↦
          let (response, answered, whole) =
            respond_lem (some m) (echoed_id (first_field (codes "id") fs))
              (echoed_small (first_field (codes "id") fs)) in
          inr (
            response,
            handle_some json m (method ∙ e)
                ∙ ap (λ x. respond (some m) (echoed_id x)) id
                ∙ answered,
            whole,
          )
    ]
