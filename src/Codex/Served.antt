-- ===== src/Codex/Served.antt =====
-- A request of the host from its reports to the reports that answer it.
use zephyr_applications.Common.{
  ℕ, ◌≤◌, ◌≡◌, Bool, not, ◌==◌, List, [], ◌∷◌, ◌++◌, Option, none, some, length,
}
use zephyr_applications.Codex.{codex_hid_send}
use zephyr_applications.Codex.Fragments.{received}
use zephyr_applications.Codex.Receive.{receive_report}
use zephyr_applications.Codex.Rpc.{codex_rpc_handle, pending_work_handler, echoed_id}
use zephyr_applications.Codex.Rpc.Answers.{Answers}

-- The receive buffer and the pending request after a report.
abbrev pub take_report : List ℕ × List ℕ → List ℕ → List ℕ × List ℕ
take_report (rx_buf, pending) bytes =
    let (after, handled) = receive_report rx_buf bytes in
    (after, elim handled [ none ↦ pending | some json ↦ codex_rpc_handle pending json ])

abbrev pub take_reports : List ℕ × List ℕ → List (List ℕ) → List ℕ × List ℕ
take_reports st [] = st
take_reports st (bytes ∷ more) = take_reports (take_report st bytes) more

abbrev handle_all : List ℕ → List (List ℕ) → List ℕ
handle_all pending [] = pending
handle_all pending (json ∷ more) = handle_all (codex_rpc_handle pending json) more

-- A fragment fits a report.
abbrev pub FitsReport : List ℕ → Type 0
FitsReport f = length f ≤ 61

abbrev handled_by : List ℕ → Option (List ℕ) → List ℕ
handled_by pending none = pending
handled_by pending (some json) = codex_rpc_handle pending json

-- take_report behind receive_report.
abbrev taken : List ℕ → List ℕ × Option (List ℕ) → List ℕ × List ℕ
taken pending (after, handled) =
    (after, elim handled [ none ↦ pending | some json ↦ codex_rpc_handle pending json ])

abbrev pub not_nul : ℕ → Bool
not_nul c = not (c == 0)

-- What comes of a pending request.
abbrev pub IsServed : Option (List ℕ) → List ℕ → Type 0
IsServed id pending =
    (response : List ℕ) × (reports : List (List ℕ)) × (pending_work_handler pending
      ≡ (some response, []))
    × Answers (echoed_id id) response
    × (codex_hid_send response 5 ≡ some reports)
    × (received reports ≡ response ++ (10 ∷ []))
