-- ===== src/Common/Database/Laws.antt =====
-- Which endpoint of Consul `DbConf` takes.
use cortx_utils.Base.{
  ℕ, zero, suc, ◌+◌, ◌<◌, Text, true, false, ◌≡◌, ◌⊎◌, arith, ok, refl, ◌∙◌, some, Result,
  Result-cases, Bool-cases, inl, inr,
}
use cortx_utils.Value.{ℤ, Value, null}
use cortx_utils.KvStore.{Backend}
use cortx_utils.Conf.Singleton.{Process}
use cortx_utils.Release.Installed.{to_int, turns}
use cortx_utils.Common.Cluster.Laws.{get_keeps}
use cortx_utils.Common.Database.{
  Url, DbConf, cluster_index, endpoint_key, parsed, is_http, State, on_conf, conf_get, assign, scan,
  get_consul_netloc, num_endpoints,
}

module _ (machine_id : Value) (B : Backend) (urlparse : Text → Result Url) where
  -- The `i`-th endpoint in the configuration of the cluster has this URL.
  abbrev pub Endpoint : Process machine_id B → ℕ → Url → Type 0
  Endpoint p i url =
      (v : Value) × ((conf_get machine_id B cluster_index (endpoint_key i) p).0 ≡ ok v)
      × (parsed urlparse v ≡ ok url)

  -- The endpoints before the `j`-th, from the `i`-th on, are not for `http`.
  abbrev pub NoneBefore : Process machine_id B → ℕ → ℕ → Type 0
  NoneBefore p i j = (k : ℕ) → k < j → (url : Url) × Endpoint p (k + i) url × (is_http url ≡ false)

  scan_step :
      (n i : ℕ) (d : DbConf) (p : Process machine_id B)
      → (scan machine_id B urlparse (suc n) i (d, p)).0 ≡ ok tt
      → (url : Url) × Endpoint p i url
        × (((is_http url ≡ true)
              × (scan machine_id B urlparse (suc n) i (d, p) ≡ assign machine_id B url (d, p)))
            ⊎ ((is_http url ≡ false)
                × (scan machine_id B urlparse (suc n) i (d, p)
                    ≡ scan machine_id B urlparse n (suc i) (d, p))))
  unfolding scan on_conf
  scan_step n i d p done =
      let key = endpoint_key i in
      let kept = get_keeps machine_id B cluster_index (some key) null true p in
      elim (Result-cases (conf_get machine_id B cluster_index key p).0) [
        | inr (e, raised) ↦ absurd (ground arith)
        | inl (v, read) ↦ elim (Result-cases (parsed urlparse v)) [
          | inr (e, raised) ↦ absurd (ground arith)
          | inl (url, is_url) ↦ (
            url,
            (v, read, is_url),
            elim (Bool-cases (is_http url)) [
              | inl http ↦ inl (http, ground arith)
              | inr other ↦ inr (other, ground arith)
            ],
          )
        ]
      ]

  -- What an outcome says of `n` endpoints from the `i`-th on: either none is for `http`, and nothing has
  -- changed, or the host and the port are those of the first that is.
  abbrev pub Found :
      ℕ → ℕ → DbConf → Process machine_id B → Result (Unit {0}) × State machine_id B → Type 0
  Found n i d p outcome =
      (NoneBefore p i n × (outcome ≡ (ok tt, (d, p))))
      ⊎ ((j : ℕ) × (url : Url) × (port : Value) × (j < n)
          × NoneBefore p i j
          × Endpoint p (j + i) url
          × (is_http url ≡ true)
          × (url.port ≡ ok port)
          × (outcome ≡ (ok tt, (record { consul_host = url.hostname; consul_port = port }, p))))

  same_place :
      (p : Process machine_id B) (m n : ℕ) (url : Url) → m ≡ n → Endpoint p m url → Endpoint p n url
  same_place p m n url e there = rw e at there

  NoneBefore-suc :
      (p : Process machine_id B) (i j : ℕ) (url : Url)
      → Endpoint p i url
      → is_http url ≡ false
      → NoneBefore p (suc i) j
      → NoneBefore p i (suc j)
  NoneBefore-suc p i j url here other later zero before =
      (url, same_place p i (0 + i) url (omega arith) here, other)
  NoneBefore-suc p i j url here other later (suc k) before =
      let (found, there, not_http) = later k (omega arith) in
      (found, same_place p (k + suc i) (suc k + i) found (omega arith) there, not_http)

  assign_done :
      (url : Url) (d : DbConf) (p : Process machine_id B)
      → (assign machine_id B url (d, p)).0 ≡ ok tt
      → (port : Value) × (url.port ≡ ok port)
        × (assign machine_id B url (d, p)
            ≡ (ok tt, (record { consul_host = url.hostname; consul_port = port }, p)))
  unfolding assign
  assign_done url d p done = elim (Result-cases url.port) [
    | inr (e, raised) ↦ absurd (ground arith)
    | inl (port, read) ↦ (port, read, ground arith)
  ]

  scan_finds :
      (n i : ℕ) (d : DbConf) (p : Process machine_id B)
      → (scan machine_id B urlparse n i (d, p)).0 ≡ ok tt
      → Found n i d p (scan machine_id B urlparse n i (d, p))
  unfolding scan
  scan_finds zero i d p done = inl (λ k before. absurd (omega arith), refl)
  scan_finds (suc n) i d p done =
      let (url, here, next) = scan_step n i d p done in
      elim next [
        | inl (http, step) ↦
            let (port, read, result) = assign_done url d p (ground arith) in
            inr (
              0,
              url,
              port,
              omega arith,
              λ k before. absurd (omega arith),
              same_place p i (0 + i) url (omega arith) here,
              http,
              read,
              ground arith,
            )
        | inr (other, step) ↦ elim (scan_finds n (suc i) d p (ground arith)) [
          | inl (none_are, same) ↦ inl (NoneBefore-suc p i n url here other none_are, ground arith)
          | inr (j, found, port, less, none_are, there, http, read, result) ↦ inr (
            suc j,
            found,
            port,
            omega arith,
            NoneBefore-suc p i j url here other none_are,
            same_place p (j + suc i) (suc j + i) found (omega arith) there,
            http,
            read,
            step ∙ result,
          )
        ]
      ]

  -- If `_get_consul_netloc` returns, the number of endpoints was read as an integer, and either none
  -- of so many endpoints is for `http`, and nothing has changed, or the host and the port are those of the first that
  -- is, and nothing else has changed.
  pub get_consul_netloc-Found :
      (d : DbConf) (p : Process machine_id B)
      → (get_consul_netloc machine_id B urlparse (d, p)).0 ≡ ok tt
      → (v : Value) × (n : ℤ) × ((conf_get machine_id B cluster_index num_endpoints p).0 ≡ ok v)
        × (to_int v ≡ ok n)
        × Found (turns n) 0 d p (get_consul_netloc machine_id B urlparse (d, p))
  unfolding get_consul_netloc on_conf
  get_consul_netloc-Found d p done =
      let kept = get_keeps machine_id B cluster_index (some num_endpoints) null true p in
      elim (Result-cases (conf_get machine_id B cluster_index num_endpoints p).0) [
        | inr (e, raised) ↦ absurd (ground arith)
        | inl (v, read) ↦ elim (Result-cases (to_int v)) [
          | inr (e, raised) ↦ absurd (ground arith)
          | inl (n, number) ↦
              let same : get_consul_netloc machine_id B urlparse (d, p)
                  ≡ scan machine_id B urlparse (turns n) 0 (d, p) =
                ground arith in
              (v, n, read, number, rw same (scan_finds (turns n) 0 d p (ground arith)))
        ]
      ]
