-- ===== src/Session/Receive/Errors.antt =====
-- What an error does to the frames of a datagram.
use raknet_rust.Protocol.Frame.{Frame}
use raknet_rust.Session.SplitAssembler
use raknet_rust.Session.SplitAssembler.{SplitAssembler}
