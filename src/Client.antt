-- ===== src/Client.antt =====
-- Develop/rekernel_x/src/main/cpp/rkx_jni.cpp: the user-space end, which turns the messages of the
-- kernel module into calls of a Java callback, and Java calls into messages. The Java virtual machine
-- and the sockets are parameters; a call of the callback is a value.
pub mod State
pub mod Commands
pub mod Events
pub mod Safe
pub mod Decodes
pub mod Messages
pub mod Connection
pub mod Resolve
pub mod Loading
