-- ===== src/Parameters/Client.antt =====
-- modules/service/include/dls2/service/service_client.tpp and service_server.tpp, and
-- modules/parameter_server/src/parameter_client.cpp: a call of a service over the network. A call is cut where the
-- code lets other threads in: the responses that arrive between the sending of its request and its wait, and
-- those that arrive until the wait has woken.
use dls.Common.{
  ℕ, ◌≡◌, refl, Bool, true, false, Option, none, some, List, [], ◌∷◌, Text, text_eq, text_beq_iff,
  arith, if◌then◌else◌, ltb,
}
use dls.Common.Map.{find, emplace, find-emplace_new}
use dls.Parameters.{ParamServer, ParamStore, response, handle}

pub record ServiceClient {ℓ κ} (Request : Type ℓ) (Response : Type κ) : Type (ℓ ⊔ κ) where
  pub remote_response : Option Response
  pub sent : List Request

module _ {ℓ κ} {Request : Type ℓ} {Response : Type κ} where
  -- ServiceClient(topic_req, topic_res)
  unfoldable pub new_client : ServiceClient Request Response
  new_client = record { remote_response = none; sent = [] }

  -- the subscriber's function, for one response after another
  unfoldable pub receive_all :
      List Response → ServiceClient Request Response → ServiceClient Request Response
  receive_all [] c = c
  receive_all (r ∷ rs) c = receive_all rs (record c { remote_response = some r })

  unfoldable pub send : Request → ServiceClient Request Response → ServiceClient Request Response
  send request c = record c { sent = request ∷ c.sent }

  -- the end of both calls: the response is taken, where there is one
  unfoldable pub take_response :
      Response → ServiceClient Request Response → ServiceClient Request Response × Response
  take_response result c = elim c.remote_response [
    | none ↦ (c, result)
    | some r ↦ (record c { remote_response = none }, r)
  ]

  -- call(request, result): `none` while no notification comes to the wait
  unfoldable pub call :
      Request
      → Response
      → List Response
      → List Response
      → ServiceClient Request Response
      → Option (ServiceClient Request Response × Response)
  unfolding receive_all send take_response
  call request result early during c = elim during [
    | [] ↦ none
    | r ∷ rs ↦
        some (take_response result (receive_all (r ∷ rs) (receive_all early (send request c))))
  ]

  -- call(request, result, duration): the wait ends with its time
  unfoldable pub call_for :
      Request
      → Response
      → List Response
      → List Response
      → ServiceClient Request Response
      → ServiceClient Request Response × Response
  unfolding receive_all send take_response
  call_for request result early during c =
      take_response result (receive_all during (receive_all early (send request c)))

-- waitMatching(): what hasMatched answers and the seconds passed after each sleep; `none` while it polls
unfoldable pub wait_matching : List (Bool × ℕ) → Option Bool
wait_matching [] = none
wait_matching ((matched, seconds) ∷ polls) =
    let rest = wait_matching polls in
    if matched then some false else if ltb 10 seconds then some false else rest

-- ServiceServer's subscriber: each request is answered in turn
unfoldable pub serve {ℓ κ μ} :
    {Store : Type ℓ} {Request : Type κ} {Response : Type μ}
    → (Request → Store → Store × Response)
    → List Request
    → Store
    → Store × List Response
serve callback [] store = (store, [])
serve callback (request ∷ requests) store =
    let (store', r) = callback request store in
    let (store'', rs) = serve callback requests store' in (store'', r ∷ rs)

abbrev pub ParameterClient : Type 0
ParameterClient = ServiceClient ParamServer (Text × Bool)

-- the requests of set and get
abbrev pub set_request : Text → Text → ParamServer
set_request key data_ = record { key = key; value = data_; rw = true }

abbrev pub get_request : Text → ParamServer
get_request key = record { key = key; value = []; rw = false }

-- set(key, data)
unfoldable pub set :
    Text → Text → List (Text × Bool) → List (Text × Bool) → ParameterClient → Option ParameterClient
unfolding call
set key data_ early during c = elim (call (set_request key data_) ([], false) early during c) [
  | none ↦ none
  | some (c', r) ↦ some c'
]

-- get(key)
unfoldable pub get :
    Text
    → List (Text × Bool)
    → List (Text × Bool)
    → ParameterClient
    → Option (ParameterClient × Text)
unfolding call
get key early during c = elim (call (get_request key) ([], false) early during c) [
  | none ↦ none
  | some (c', (value, rw)) ↦ some (c', value)
]

-- A parameter that the server does not have is set and then read: where the server answers both requests in
-- turn, and each answer comes while the client waits for it, the client gets the value that it has set.
pub get-set :
    (key data_ : Text) (store : ParamStore) (c : ParameterClient)
    → find key store ≡ none
    → let (store', answers) = serve handle (set_request key data_ ∷ get_request key ∷ []) store in
      (a : Text × Bool) × (b : Text × Bool) × (c' : ParameterClient) × (c'' : ParameterClient)
      × (answers ≡ a ∷ b ∷ [])
      × (set key data_ [] (a ∷ []) c ≡ some c')
      × (get key [] (b ∷ []) c' ≡ some (c'', data_))
unfolding serve handle set get call receive_all send take_response
get-set key data_ store c new =
    let written = emplace key data_ store in
    let there : find key written ≡ some data_ =
      ground (arith, find-emplace_new key key data_ store new, text_beq_iff key key) in
    (
      response (find key written),
      response (find key written),
      record c { remote_response = none; sent = set_request key data_ ∷ c.sent },
      record c { remote_response = none; sent = get_request key ∷ set_request key data_ ∷ c.sent },
      refl,
      refl,
      rw there refl,
    )

-- An answer that comes after its own call with a time limit has ended is what the next such call
-- returns, where that one's own answer is late too: a response is not matched with its request.
pub call_for-late :
    {Request Response : Type 0} (first second : Request) (result late : Response)
    (c : ServiceClient Request Response)
    → c.remote_response ≡ none
    → let (c1, r1) = call_for first result [] [] c in
      let (c2, r2) = call_for second result (late ∷ []) [] c1 in
      (r1 ≡ result) × (r2 ≡ late) × (c2.remote_response ≡ none)
unfolding call_for receive_all send take_response
call_for-late first second result late c empty = ground (arith, empty)
