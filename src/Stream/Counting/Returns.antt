-- ===== src/Stream/Counting/Returns.antt =====
-- The loop of `PerformTask` over the lines runs through.
use rain_strom_distributed_s.Prelude.{
  ℕ, suc, ◌≡◌, ◌<◌, refl, some, Option, List, [], ◌∷◌, String, ltb, str_eq, Bool-cases,
  Option-cases, inl, inr, ℤ,
}
use rain_strom_distributed_s.Stream.Partition.{minus_one}
use rain_strom_distributed_s.Stream.Tuples.{Tuple}
use rain_strom_distributed_s.Stream.Network.{
  JobTask, Env, Sender, conn_of, create_tuple_id, get_receiver_by_tuple, receiver_worker_id,
}
use rain_strom_distributed_s.Stream.Sender.{
  after, execute_tasks, get_arguments, get_tuple, perform_line, perform_lines, send_output,
}
use rain_strom_distributed_s.Stream.Sender.Keys.{IsHash, hash_key-lt}

module _ (env : Env) (task : JobTask) (hash : IsHash env) (n : 0 < task.parent_job.num_tasks) where
  get_receiver-returns :
      (t : Tuple) (s : Sender)
      → (conn : Option ℕ) × (get_receiver_by_tuple env t task s ≡ some conn)
  unfolding get_receiver_by_tuple
  get_receiver-returns t s =
      let (k, e, l) = hash_key-lt env t.key task.parent_job.num_tasks hash n in
      (conn_of (receiver_worker_id k s) s, rw (get_receiver_by_tuple, e) refl)

  perform_line-returns :
      (file : String) (i : ℕ) (text : String) (made : ℕ) (s : Sender)
      → (next : ℕ × Sender) × (perform_line env task file i text made s ≡ some next)
  unfolding perform_line
  perform_line-returns file i text made s =
      let input = env.print_tuple (env.print_key file i) text in
      let run = execute_tasks env task.parent_job.op_1_exe input (get_arguments env task "" s) in
      elim (Option-cases run) [
        | inl e ↦ ((made, s), rw (perform_line, e) refl)
        | inr (out, e) ↦ elim (Bool-cases (str_eq (env.unmarshal out).key "")) [
          | inl z ↦ ((made, s), rw (perform_line, e, z) refl)
          | inr z ↦
              let id = create_tuple_id env task.parent_job.job_id task.task_id (minus_one made) in
              let t = get_tuple id (env.unmarshal out) in
              let (conn, g) = get_receiver-returns t s in
              ((suc made, send_output env t conn s), rw (perform_line, e, z, g) refl)
        ]
      ]

  pub perform_lines-returns :
      (file : String) (start : ℕ) (end : ℤ) (lines : List String) (i made : ℕ) (s : Sender)
      → (s' : Sender) × (perform_lines env task file start end lines i made s ≡ some s')
  unfolding perform_lines
  perform_lines-returns file start end [] i made s = (s, refl)
  perform_lines-returns file start end (text ∷ rest) i made s = elim (Bool-cases (ltb i start)) [
    | inl z ↦
        let (u, e) = perform_lines-returns file start end rest (suc i) made s in
        (u, rw (perform_lines, z) e)
    | inr z ↦ elim (Bool-cases (after i end)) [
      | inl y ↦ (s, rw (perform_lines, z, y) refl)
      | inr y ↦
          let ((made', t), p) = perform_line-returns file i text made s in
          let (u, e) = perform_lines-returns file start end rest (suc i) made' t in
          (u, rw (perform_lines, z, y, p) e)
    ]
  ]
