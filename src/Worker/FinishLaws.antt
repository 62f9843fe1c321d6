-- ===== src/Worker/FinishLaws.antt =====
-- When a row whose triage has come to an end becomes `triaged` (tools/triage_worker.py, app/queue_db.py).
use support_triage_llm.Base.{String, ◌≡◌, ◌≢◌, refl, ==-refl, some, ok}
use support_triage_llm.Base.Text.{lower}
use support_triage_llm.Values.{text, get}
use support_triage_llm.Queue.Rows.{Row, Table, find_row, change_row}
use support_triage_llm.Queue.RowLaws.{find_row-change_row}
use support_triage_llm.Queue.Ops.{
  QueueError, check_update, check_found, commit_update, updates_of, write_columns,
  update_row_status,
}
use support_triage_llm.Triage.Finish as Finished
use support_triage_llm.Report.Generate.{FinalReport}
use support_triage_llm.Worker.Retry.{RetryConfig, Finish, triaged, finish, or_retry}
use support_triage_llm.Worker.World.{World, Draws}
use support_triage_llm.Worker.Case.{Findings}
use support_triage_llm.Worker.ColumnLaws.{
  columns, check_transition-triaged, full_lem, columns-free, columns-draft,
}

module _ (w : World) (d : Draws) (row : Row) (processor_id : String) (o : Finished.Outcome)
    (x : Findings) (rep : FinalReport) where
  module _ (describe : QueueError → String) (config : RetryConfig) (fin : Finish) where
    -- A triage that has come to its end with a draft whose subject and body are non-empty makes its row,
    -- which is being processed, `triaged`, with that draft.
    pub finish-triaged :
        (t : Table) (r : Row)
        → find_row row.id t.rows ≡ some r
        → lower r.status ≡ "processing"
        → x.draft.subject ≢ ""
        → x.draft.body ≢ ""
        → (t' : Table) × (r' : Row) × (finish w.dumps describe config processor_id fin row
              (triaged (columns w d row processor_id o x rep))
              t
            ≡ ok t')
          × (find_row row.id t'.rows ≡ some r')
          × (r'.status ≡ "triaged")
          × (get "triage_draft_subject" r'.cells ≡ text x.draft.subject)
          × (get "triage_draft_body" r'.cells ≡ text x.draft.body)
    unfolding finish or_retry update_row_status check_update check_found commit_update
    finish-triaged t r found e ns nb =
        let write =
          write_columns "triaged"
            (updates_of w.dumps "triaged" (columns w d row processor_id o x rep) fin.now) in
        (
          record t { rows = change_row row.id write t.rows },
          write r,
          rw
              (
                or_retry,
                found,
                check_transition-triaged r.status e,
                full_lem w d row processor_id o x rep r.cells ns nb,
                columns-free w d row processor_id o x rep fin.now,
              )
              refl,
          rw
              (
                find_row-change_row row.id write (λ q. unfold write_columns in refl) row.id t.rows,
                ==-refl row.id,
                found,
              )
              refl,
          unfold write_columns in refl,
          (columns-draft w d row processor_id o x rep fin.now r).0,
          (columns-draft w d row processor_id o x rep fin.now r).1,
        )
