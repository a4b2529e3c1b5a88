-- ===== src/Prelude/Rpc.antt =====
-- A gRPC call as its client sees it. The transport is not part of the repository: for each call a
-- `Network` says whether the request and the reply arrive. A call that is cut off gives one of the
-- codes that gRPC itself makes: among them Internal, where a reply is unreadable or its stream is
-- reset, and ResourceExhausted, where it is too large. `other_code` stands for the codes that the
-- repository names nowhere: Canceled, Unimplemented, Unauthenticated.
pub data Code : Type 0 where
  invalid_argument not_found failed_precondition resource_exhausted internal : Code
  unavailable deadline_exceeded unknown other_code : Code

pub data Reply (A : Type 0) : Type 0 where
  reply : A → Reply A
  status : Code → Reply A

pub data TransportCode : Type 0 where
  unavailable deadline_exceeded unknown too_large broken_stream refused : TransportCode

pub data Network : Type 0 where
  delivered : Network
  request_lost reply_lost : TransportCode → Network

abbrev pub transport : TransportCode → Code
transport TransportCode.unavailable = Code.unavailable
transport TransportCode.deadline_exceeded = Code.deadline_exceeded
transport TransportCode.unknown = Code.unknown
transport too_large = resource_exhausted
transport broken_stream = internal
transport refused = other_code

abbrev pub remote {ℓ} : {S : Type ℓ} {A : Type 0} → Network → (S → Reply A × S) → S → Reply A × S
remote delivered handler s = handler s
remote (request_lost t) handler s = (status (transport t), s)
remote (reply_lost t) handler s = (status (transport t), (handler s).1)
