-- ===== src/HmLog/Output/Files.antt =====
-- include/hmLog.hpp: what the loop of `printLog` leaves in the log file, for records whose level is one
-- of the five.
use home_keeper.Prelude.{
  ℕ, List, [], ◌∷◌, ◌++◌, append-nil, append_assoc, some, ◌≡◌, inl, inr, refl, sym, ap, ◌∙◌, leb,
  Bool-cases, Bytes, codes, All,
}
use home_keeper.File.{Stdio, History, File, write, set_path}
use home_keeper.File.Contents.{Disk, Works, added, holds-write}
use home_keeper.HmLog.{LogT, print_logs}
use home_keeper.HmLog.Setup.{Settings, log_name, set_log_path}
use home_keeper.HmLog.Output.{write_text, write_log, write_logs}
use home_keeper.HmLog.Output.Lines.{Fits, line, tem_buf_whole, Dated, records, filed, Shown}

module _ (c : Stdio) (works : Works c) (disk : Disk c) (clock : History → Bytes)
    (log_path name : Bytes) where
  open disk use {holds}

  -- The log file of a day.
  abbrev pub path_on : Bytes → Bytes
  path_on day = log_name log_path day name

  -- The log has its path and its name, and a file that is opened for appending.
  abbrev pub Ready : Settings → Type 0
  Ready s =
      (s.log_path ≡ log_path)
      × (s.process_name ≡ name)
      × (f : File) × (s.logfile ≡ some f)
      × (f.mode ≡ codes "at+")

  write_text_lem :
      (text : Bytes) (s : Settings) (f : File) (h : History)
      → s.logfile ≡ some f
      → write_text c clock text s h ≡ some (s, (write c f text h).1)
  unfolding write_text
  write_text_lem text s f h e = rw e refl

  write_log_lem :
      (log : LogT) (s : Settings) (h : History)
      → Fits log
      → Ready s
      → (s' : Settings) × (h' : History) × (write_log c clock log s h ≡ some (s', h'))
        × Ready s'
        × ((q : Bytes) → holds h' q ≡ holds h q ++ added (path_on (clock h)) (line log) q)
  unfolding write_log
  write_log_lem log s h fits (p, n, f, e, m) =
      let f' = set_path (log_name s.log_path (clock h) s.process_name) f in
      let s1 = set_log_path (clock h) s in
      let e1 : s1.logfile ≡ some f' = rw e refl in
      let (buf, short, no_zero) = tem_buf_whole log fits in
      let same : f'.path ≡ path_on (clock h) = rw (p, n) refl in
      (
        s1,
        (write c f' (line log) h).1,
        rw (buf, write_log) (write_text_lem (line log) s1 f' h e1),
        (p, n, f', e1, m),
        λ q.
            (holds-write c works disk f' (line log) h q m no_zero).0
            ∙ ap (λ path. holds h q ++ added path (line log) q) same,
      )

  pub write_logs_lem :
      (level : ℕ) (logs : List LogT) (s : Settings) (h : History)
      → All Fits logs
      → Ready s
      → (s' : Settings) × (h' : History) × (ds : Dated) × (write_logs c clock level logs s h
          ≡ some (s', h'))
        × Ready s'
        × (records ds ≡ print_logs level logs)
        × Shown clock ds
        × ((q : Bytes) → holds h' q ≡ holds h q ++ filed path_on ds q)
  unfolding write_logs print_logs
  write_logs_lem level [] s h fits ready =
      (s, h, [], refl, ready, refl, tt, λ q. sym (append-nil (holds h q)))
  write_logs_lem level (log ∷ logs) s h (fit, fits) ready =
      elim (Bool-cases (leb level log.level)) [
        | inl e ↦
            let (s1, h1, e1, ready1, held1) = write_log_lem log s h fit ready in
            let (s2, h2, ds, e2, ready2, same, shown, held2) =
              write_logs_lem level logs s1 h1 fits ready1 in
            (
              s2,
              h2,
              (clock h, log) ∷ ds,
              rw (e, write_logs, e1, e2) refl,
              ready2,
              rw (e, print_logs) (ap (◌∷◌ log) same),
              ((h, refl), shown),
              λ q.
                  held2 q
                  ∙ rw (held1 q) (
                      append_assoc (holds h q) (added (path_on (clock h)) (line log) q)
                        (filed path_on ds q)),
            )
        | inr e ↦
            let (s2, h2, ds, e2, ready2, same, shown, held2) =
              write_logs_lem level logs s h fits ready in
            (s2, h2, ds, rw (e, write_logs) e2, ready2, rw (e, print_logs) same, shown, held2)
      ]
