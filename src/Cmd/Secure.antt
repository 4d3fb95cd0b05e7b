-- ===== src/Cmd/Secure.antt =====
-- The servers of cmd/main.go are safe by default: HTTP/2 is off, and the metrics are protected.
use eks_ami_operator.Base.{
  ◌≡◌, ◌∙◌, refl, Bool, true, false, String, str_eq, List, [], ◌∷◌, Option, some, Bool-cases, inl,
  inr,
}
use eks_ami_operator.Go.Flag.{Parse, text}
use eks_ami_operator.Cmd.Flags.{Flags, LibraryFlag, own_flags, parse_flags}
use eks_ami_operator.Cmd.Servers.{
  TlsConfig, WebhookOptions, MetricsOptions, with_authentication_and_authorization, disable_http2,
  webhook_certs, metrics_certs, tls_options, webhook_options, protect, metrics_options,
}
use eks_ami_operator.Cmd.Asked.{Leaves, Others, asks, unasked}

-- A server's configuration behind its options, one after the other.
abbrev pub configured : List (TlsConfig → TlsConfig) → TlsConfig → TlsConfig
configured [] c = c
configured (f ∷ fs) c = configured fs (f c)

-- A text flag sets another field than `get`.
abbrev SetsOther : (Flags → Bool) → (String → Flags → Flags) → Type 0
SetsOther get f = (v : String) (s : Flags) → get (f v s) ≡ get s

-- Nothing but the directory and the two names depends on the certificate's path.
webhook_certs-tls_opts :
    (f : Flags) (o : WebhookOptions) → (webhook_certs f o).tls_opts ≡ o.tls_opts
unfolding webhook_certs
webhook_certs-tls_opts f o = elim (Bool-cases (str_eq f.webhook_cert_path "")) [
  | inl e ↦ rw e refl
  | inr e ↦ rw e refl
]

SameButCerts : MetricsOptions → MetricsOptions → Type 0
SameButCerts o o' =
    (o'.tls_opts ≡ o.tls_opts)
    × (o'.secure_serving ≡ o.secure_serving)
    × (o'.filter_provider ≡ o.filter_provider)
    × (o'.bind_address ≡ o.bind_address)

metrics_certs-SameButCerts : (f : Flags) (o : MetricsOptions) → SameButCerts o (metrics_certs f o)
unfolding metrics_certs SameButCerts
metrics_certs-SameButCerts f o = elim (Bool-cases (str_eq f.metrics_cert_path "")) [
  | inl e ↦ rw e (refl, refl, refl, refl)
  | inr e ↦ rw e (refl, refl, refl, refl)
]

protect-tls_opts : (secure : Bool) (o : MetricsOptions) → (protect secure o).tls_opts ≡ o.tls_opts
unfolding protect
protect-tls_opts true o = refl
protect-tls_opts false o = refl

protect_on :
    (secure : Bool) (o : MetricsOptions)
    → secure ≡ true
    → ((protect secure o).filter_provider ≡ some with_authentication_and_authorization)
      × ((protect secure o).secure_serving ≡ o.secure_serving)
      × ((protect secure o).bind_address ≡ o.bind_address)
unfolding protect
protect_on true o h = (refl, refl, refl)
protect_on false o h = cc

tls_options-off :
    (enable_http2 : Bool) (c : TlsConfig)
    → enable_http2 ≡ false
    → (configured (tls_options enable_http2) c).next_protos ≡ "http/1.1" ∷ []
unfolding tls_options disable_http2
tls_options-off true c h = cc
tls_options-off false c h = refl

module _ (library : String → Option LibraryFlag) where
  -- Only -enable-http2 sets `enable_http2`, and only -metrics-secure `secure_metrics`.
  text-Leaves :
      (get : Flags → Bool) (f : String → Flags → Flags)
      → SetsOther get f
      → Leaves library get (text f)
  text-Leaves get f same v s s' h = cc (same v s)

  http2_alone : Others library (λ f. f.enable_http2) "enable-http2" own_flags
  unfolding own_flags
  http2_alone =
      let t = text-Leaves (λ f. f.enable_http2) in
      (
        λ _. t _ (λ v s. refl),
        (
          λ _. t _ (λ v s. refl),
          (
            λ _ b s. refl,
            (
              λ _ b s. refl,
              (
                λ _. t _ (λ v s. refl),
                (
                  λ _. t _ (λ v s. refl),
                  (
                    λ _. t _ (λ v s. refl),
                    (
                      λ _. t _ (λ v s. refl),
                      (λ _. t _ (λ v s. refl), (λ _. t _ (λ v s. refl), (λ e. cc, tt))),
                    ),
                  ),
                ),
              ),
            ),
          ),
        ),
      )

  secure_alone : Others library (λ f. f.secure_metrics) "metrics-secure" own_flags
  unfolding own_flags
  secure_alone =
      let t = text-Leaves (λ f. f.secure_metrics) in
      (
        λ _. t _ (λ v s. refl),
        (
          λ _. t _ (λ v s. refl),
          (
            λ _ b s. refl,
            (
              λ e. cc,
              (
                λ _. t _ (λ v s. refl),
                (
                  λ _. t _ (λ v s. refl),
                  (
                    λ _. t _ (λ v s. refl),
                    (
                      λ _. t _ (λ v s. refl),
                      (λ _. t _ (λ v s. refl), (λ _. t _ (λ v s. refl), (λ _ b s. refl, tt))),
                    ),
                  ),
                ),
              ),
            ),
          ),
        ),
      )

  -- With no -enable-http2 on the command line, however the rest of it reads, both servers are left
  -- with HTTP/1.1 as their only protocol, whatever they offered before.
  pub servers_refuse_http2 :
      (args : List String) (f : Flags) (operands : List String)
      → parse_flags library args ≡ Parse.parsed f operands
      → asks "enable-http2" args ≡ false
      → (c : TlsConfig)
      → ((configured (metrics_options f).tls_opts c).next_protos ≡ "http/1.1" ∷ [])
        × ((configured (webhook_options f).tls_opts c).next_protos ≡ "http/1.1" ∷ [])
  unfolding metrics_options webhook_options SameButCerts
  servers_refuse_http2 args f operands h other c =
      let off =
        unasked library (λ g. g.enable_http2) "enable-http2" http2_alone args f operands other h in
      let refused = tls_options-off f.enable_http2 c off in
      (
        rw ((metrics_certs-SameButCerts f _).0, protect-tls_opts) refused,
        rw webhook_certs-tls_opts refused,
      )

  -- With no -metrics-secure on the command line, the metrics are served by HTTPS at the address of
  -- the flag, and only behind authentication and authorization.
  pub metrics_protected :
      (args : List String) (f : Flags) (operands : List String)
      → parse_flags library args ≡ Parse.parsed f operands
      → asks "metrics-secure" args ≡ false
      → ((metrics_options f).secure_serving ≡ true)
        × ((metrics_options f).filter_provider ≡ some with_authentication_and_authorization)
        × ((metrics_options f).bind_address ≡ f.metrics_addr)
  unfolding metrics_options SameButCerts
  metrics_protected args f operands h other =
      let on =
        unasked library (λ g. g.secure_metrics) "metrics-secure" secure_alone args f operands other
          h in
      let (_, secure, filter, address) = metrics_certs-SameButCerts f _ in
      let (behind, serving, bound) = protect_on f.secure_metrics _ on in
      (secure ∙ serving ∙ on, filter ∙ behind, address ∙ bound)
