-- ===== src/Net.antt =====
-- net: connections, and what the server keeps of them.
pub mod TcpConnection
pub mod Acceptor
pub mod Connection
pub mod Serving
pub mod Socket
pub mod TcpServer
mod Tests
