-- ===== src/Lib.antt =====
-- The issuer node: publication of identity states, credential links, API keys, payments,
-- revocation, connections, signing keys and the access to the chains.
--
-- The node (issuer-node/) issues verifiable credentials for the identities that it keeps. It
-- collects the claims of an identity in merkle trees, and makes them checkable by publishing the
-- roots of the trees, the identity state, on a chain. This library models eight parts of its core,
-- the two stores that they stand on and the helpers of the listings.
--
-- Publication of states (issuer-node/internal/gateways/publisher.go). PublishState and
-- RetryPublishState take a guard on the identifier (Publisher/Entry, with the expiring map of
-- issuer-node/internal/syncttlmap/sync_map.go in TtlMap), have the identity service compute a new
-- state, prove the transition, hand it to the gateway and save the row as transacted
-- (Publisher/Proof). A goroutine waits for the receipt, saves the row as confirmed or failed, sends
-- events and frees the guard (Publisher/Receipt: updateTransactionStatus,
-- updateIdentityStateTxStatus, groupByUserId). A job takes up the transacted rows that have waited
-- for too long (Publisher/Check: CheckTransactionStatus, checkStatus). The rows are those of
-- IdentityStates: issuer-node/internal/core/domain/identity_state.go,
-- issuer-node/internal/repositories/identity_state.go and the calls of
-- issuer-node/internal/core/services/identity.go between the two. `Node` is all that these
-- operations change: the guard, the table, the transactions that the gateway took, the goroutines
-- that wait and the events.
--
-- Links (issuer-node/internal/core/domain/link.go, issuer-node/internal/core/services/link.go,
-- issuer-node/internal/repositories/link.go, and the two statements of
-- issuer-node/internal/repositories/claim.go that they use). Link has the rows, Link/Repository the
-- statements, Link/Listing the query of GetAll, Link/Service the operations Save, Activate,
-- GetByID and CreateQRCode, Link/Issue the operations IssueOrFetchClaim and ProcessCallBack.
--
-- API keys (issuer-node/internal/core/apikey/api_key.go,
-- issuer-node/internal/core/domain/api_key.go, issuer-node/internal/repositories/api_key.go).
-- ApiKey/Token has the secret and its prefix, ApiKey/Scopes the lists of scopes, ApiKey/Repository
-- the table, ApiKey/Service the operations Create, Get, Rotate, Revoke and Authenticate.
--
-- Payments (issuer-node/internal/core/services/payment.go,
-- issuer-node/internal/repositories/payment.go, issuer-node/internal/core/domain/payment.go).
-- Payment has the rows, Payment/Repository the statements on payment requests, Payment/Requests the
-- listing, Payment/Options the payment options, Payment/Build the data and the signatures of a
-- payment, Payment/Chain the questions to the chains, Payment/Service the operations
-- CreatePaymentRequest and VerifyPayment. Payment/Ledger is what they promise: a ledger of the
-- requests that wait and those that a nonce has paid.
--
-- Credentials (Credential): the revocation and the deletion of
-- issuer-node/internal/core/services/claims.go (Credential/Revoke) with their statements in
-- issuer-node/internal/repositories/claim.go (Credential/Repository), and UpdateState of
-- issuer-node/internal/core/services/identity.go (Credential/State), which puts the claims that
-- wait into the tree of claims and makes the state that the publisher takes. Credential/Guard
-- and Credential/Create are the creation of a credential (its data in Credential/Document),
-- Credential/Agent the requests of wallets, and Credential/Listing the query of
-- GetAllByIssuerID. The merkle tree is a record of functions, `MerkleTree`; theorems that read a
-- tree suppose that it finds what was added, and keeps it when more is added.
--
-- Connections (Connection): the tables of issuer-node/internal/repositories/connection.go and the
-- operations Create, Delete and DeleteCredentials of
-- issuer-node/internal/core/services/connections.go.
--
-- Listings (Query): the pages of issuer-node/internal/core/pagination/pagination.go, the ORDER BY
-- clauses of issuer-node/internal/sqltools/orderbyfilter.go and the names of
-- issuer-node/internal/urn/urn.go, which the listings of connections, credentials and states share.
--
-- Keys (Key): the service of issuer-node/internal/core/services/key.go (Key/Service, with what keeps
-- a key from deletion in Key/Service/Bound and the slice of the listing in Key/Service/Window), the
-- table of issuer-node/internal/repositories/key.go (Key/Repository), the registry of providers of
-- issuer-node/internal/kms/kms.go (Key/Kms), and the providers of keys in a file (Key/Local,
-- Key/Files). A provider is a record of operations on a state, `KeyProvider`; the service holds for
-- any registry of them, and Key/Local fills the record.
--
-- Chains (Chain): the client of issuer-node/internal/eth/client.go (Chain/Wait has its loops,
-- Chain/Fees what a transaction pays), the networks of issuer-node/internal/network/resolver.go
-- (Chain/Network), and the gateways of issuer-node/internal/gateways/transaction.go
-- (Chain/Gateway) and issuer-node/internal/gateways/publisher_gateway.go (Chain/Publish,
-- Chain/Abi), which signs with a key of Key/Kms. The publisher calls the gateways; in Publisher
-- their answers are fields of its records of calls.
--
-- How the code corresponds. An operation is a function of the same name in snake case from the
-- state to its result and the new state; an error is a value of the component's `Error`. What a
-- call finds outside of the model, such as the clock, random bytes, the gateway, another service
-- or a statement that the database refuses, is a field of a record of calls (`Calls`,
-- `ProofCalls`, `IssueCalls` and so on) or an argument `fault`, so each theorem holds for all
-- answers. A table is the list of its rows. Times are natural numbers of nanoseconds, ids are
-- natural numbers, and DIDs, hashes, proofs and JSON texts are opaque strings or numbers; the
-- texts that the code takes apart (API keys, scopes, ids of keys, search terms, DIDs for the
-- resolver prefix) are lists of bytes. All definitions are total by structural recursion. The
-- two loops that ask a node until it answers (Chain/Wait) run on fuel, one round more than the
-- timeout has nanoseconds, which is enough where each round sleeps for a nanosecond at least.
-- The goroutine of a publication is a row of `watchers`; calls run one after another.
--
-- Not modelled: the merkle tree itself and the reverse hash service, the circuits, the key
-- providers for Vault and AWS, the node of a chain and its contracts, the settings files,
-- schemas, the creation of identities, the HTTP layer, configuration, caches, message brokers
-- and the user interface. Logging is left out. The columns of a claim are those that the
-- operations of a part look at, so Link, Credential and Connection each have a row of their own.
-- The limit of a link is a natural number, since the API takes only positive ones. White space
-- in scopes and search terms is that of ASCII.
pub mod Common
pub mod TtlMap
pub mod IdentityStates
pub mod Publisher
pub mod Link
pub mod ApiKey
pub mod Query
pub mod Payment
pub mod Credential
pub mod Key
pub mod Chain
pub mod Connection
